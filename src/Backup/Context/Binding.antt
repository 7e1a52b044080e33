-- ===== src/Backup/Context/Binding.antt =====
-- What the context of a backup object binds.
use kchat_rust_sdk.Base.{
  ℕ, ◌≡◌, ap, ◌∙◌, ◌↔◌, arith, length, drop, u16_be, eq_of_bytes_eq, ok, err, append_inj,
  Result-cases, inl, inr, ◌>>=◌, sym, ◌≢◌, ◌==◌, if◌then◌else◌,
}
use kchat_rust_sdk.Backup.Crypto.{Crypto}
use kchat_rust_sdk.Backup.Error.{context_mismatch, unsupported_format}
use kchat_rust_sdk.Backup.Key.{BackupKeyMaterial, derive_account_key, derive_object}
use kchat_rust_sdk.Backup.Context.{
  BackupId, BackupAccountId, BackupChunkId, BackupObjectContext, canonical_context, derive_id,
  new_context,
}

-- Sections of fixed length: the bytes determine the backup and the chunk.
pub canonical_context-injective :
    (v : ℕ) (i j : BackupId) (k l : BackupChunkId)
    → length i.bytes ≡ length j.bytes
    → canonical_context v i k ≡ canonical_context v j l
    → (i.bytes ≡ j.bytes) × (k.bytes ≡ l.bytes)
unfolding canonical_context u16_be
canonical_context-injective v i j k l h e =
    append_inj i.bytes j.bytes k.bytes l.bytes h (ap (drop 32) e)

module _ (c : Crypto) (master_key : BackupKeyMaterial) (account_id : BackupAccountId) where
  new_context-eq-ok_from :
      (v : ℕ) (i j : BackupId) (k : BackupChunkId) (ctx : BackupObjectContext)
      → derive_id c master_key account_id ≡ ok j
      → new_context c master_key account_id i v k ≡ ok ctx
      → (v ≡ 1)
        × (j ≡ i)
        × (ctx.canonical_bytes ≡ canonical_context 1 i k)
        × ((derive_account_key c master_key account_id.bytes >>= λ a.
              derive_object c a ctx.canonical_bytes)
            ≡ ok ctx.object_key)
  unfolding new_context
  new_context-eq-ok_from v i j k ctx hj h = grind (arith, eq_of_bytes_eq i.bytes j.bytes)

  -- A context is made only for format 1 and for the backup id that the key and the account derive.
  -- Its object key comes from the account key and from exactly its canonical bytes.
  pub new_context-eq-ok :
      (v : ℕ) (i : BackupId) (k : BackupChunkId) (ctx : BackupObjectContext)
      → new_context c master_key account_id i v k ≡ ok ctx
      → (v ≡ 1)
        × (derive_id c master_key account_id ≡ ok i)
        × (ctx.canonical_bytes ≡ canonical_context 1 i k)
        × ((derive_account_key c master_key account_id.bytes >>= λ a.
              derive_object c a ctx.canonical_bytes)
            ≡ ok ctx.object_key)
  unfolding new_context
  new_context-eq-ok v i k ctx h = elim (Result-cases (derive_id c master_key account_id)) [
    | inl (j, e) ↦
        let (one, same, bytes, key) = new_context-eq-ok_from v i j k ctx e h in
        (one, e ∙ ap ok same, bytes, key)
    | inr (x, e) ↦ absurd (ground arith)
  ]

  -- Under one key and account, two contexts that are made are equal exactly when they are for the
  -- same chunk.
  pub context_eq_iff :
      (v u : ℕ) (i j : BackupId) (k l : BackupChunkId) (x y : BackupObjectContext)
      → new_context c master_key account_id i v k ≡ ok x
      → new_context c master_key account_id j u l ≡ ok y
      → (x ≡ y) ↔ (k ≡ l)
  context_eq_iff v u i j k l x y hx hy =
      let (v_one, hi, cx, kx) = new_context-eq-ok v i k x hx in
      let (u_one, hj, cy, ky) = new_context-eq-ok u j l y hy in
      let same : i ≡ j = cc in
      (
        λ e.
            let bytes : k.bytes ≡ l.bytes =
              (canonical_context-injective 1 i j k l (ap (λ (b : BackupId). length b.bytes) same)
                (sym cx ∙ ap (λ (z : BackupObjectContext). z.canonical_bytes) e ∙ cy)).1 in
            cc,
        λ e. cc,
      )

  -- A backup id other than the derived one is refused: as a mismatch, or, if the format is not 1,
  -- as an unsupported format.
  pub new_context_mismatch :
      (v : ℕ) (i j : BackupId) (k : BackupChunkId)
      → derive_id c master_key account_id ≡ ok j
      → i ≢ j
      → new_context c master_key account_id i v k
        ≡ err (if v == 1 then context_mismatch else unsupported_format)
  unfolding new_context
  new_context_mismatch v i j k hj ne = ground (arith, eq_of_bytes_eq i.bytes j.bytes)
