-- ===== src/Backup/Descriptor/RoundTrip.antt =====
-- Sealing and opening a descriptor.
use kchat_rust_sdk.Base.{
  ◌≡◌, ap, ◌∙◌, sym, ◌++◌, arith, Bytes, drop, slice, length, length-append, take-append-drop,
  slice-append-drop, take-append, drop-append, ok, some, drop-drop, or_fail, or_fail-eq-ok, subst,
  >>=-eq-ok,
}
use kchat_rust_sdk.Backup.Error.{Fallible, invalid_state, authentication_failed}
use kchat_rust_sdk.Backup.Crypto.{Crypto, IsLawful}
use kchat_rust_sdk.Backup.Key.{BackupKeyMaterial, DescriptorBackupKey}
use kchat_rust_sdk.Backup.Context.{BackupAccountId, BackupId, derive_id}
use kchat_rust_sdk.Backup.Descriptor.Header.{DescriptorHeader, validate, parse}
use kchat_rust_sdk.Backup.Descriptor.Plaintext.{
  length-derive_id, length-descriptor_plaintext, validate_plaintext-descriptor_plaintext,
  validate_plaintext-eq-ok, parse-append, parse-eq-ok,
}
use kchat_rust_sdk.Backup.Descriptor.{
  descriptor_plaintext, descriptor_aad, derive_descriptor_key, seal_descriptor, open_descriptor,
  validate_plaintext,
}

ok_pair-injective :
    (h' h : DescriptorHeader) (i' i : BackupId)
    → ◌≡◌ {A = Fallible (DescriptorHeader × BackupId)} (ok (h', i')) (ok (h, i))
    → h' ≡ h
ok_pair-injective h' h i' i e = ground arith

module _ (c : Crypto) (w : IsLawful c) (m : BackupKeyMaterial) (a : BackupAccountId) where
  -- What a sealed descriptor is made of.
  seal_descriptor-eq-ok :
      (nonce : Bytes) (h : DescriptorHeader) (s : Bytes)
      → seal_descriptor c m a (some nonce) h ≡ ok s
      → (validate h ≡ ok tt)
        × ((i : BackupId) × (k : Bytes) × (e : Bytes) × (derive_id c m a ≡ ok i)
            × (derive_descriptor_key c m a ≡ ok (record { bytes = k }))
            × (c.aead_encrypt k nonce (descriptor_aad h i) (descriptor_plaintext i) ≡ some e)
            × (s ≡ h.bytes ++ (nonce ++ e)))
  unfolding seal_descriptor
  seal_descriptor-eq-ok nonce h s e =
      let (u, v, e₁) = >>=-eq-ok (validate h) _ e in
      let (i, hi, e₂) = >>=-eq-ok (derive_id c m a) _ e₁ in
      let (k, hk, e₃) = >>=-eq-ok (derive_descriptor_key c m a) _ e₂ in
      let (x, hx, e₄) =
        >>=-eq-ok
          (or_fail (c.aead_encrypt k.bytes nonce (descriptor_aad h i) (descriptor_plaintext i))
            invalid_state)
          _ e₃ in
      (ground arith, (i, k.bytes, x, hi, hk, ground arith, ground arith))

  -- Given lawful cryptography (the cipher opens what it sealed, and lengths are as documented): a
  -- sealed descriptor of a 26-byte header and a 24-byte nonce has 110 bytes, and the same key and
  -- account open it to that header and to the backup id that they derive.
  pub open_descriptor-seal_descriptor :
      (nonce : Bytes) (h : DescriptorHeader) (s : Bytes)
      → length nonce ≡ 24
      → length h.bytes ≡ 26
      → seal_descriptor c m a (some nonce) h ≡ ok s
      → (length s ≡ 110)
        × ((i : BackupId) × (derive_id c m a ≡ ok i) × (open_descriptor c m a s ≡ ok (h, i)))
  unfolding open_descriptor
  open_descriptor-seal_descriptor nonce h s hn hh e =
      let (v, (i, k, x, hi, hk, hx, es)) = seal_descriptor-eq-ok nonce h s e in
      let li = length-derive_id c w m a i hi in
      let lx : length x ≡ 60 =
        omega (arith, w.encrypt_length k nonce _ _ hx, length-descriptor_plaintext i li) in
      let lr : length (nonce ++ x) ≡ 84 = omega (arith, length-append nonce x) in
      let ls : length s ≡ 110 = rw es (omega (arith, length-append h.bytes (nonce ++ x))) in
      (
        ls,
        (
          i,
          hi,
          rw es (
              ground (
                arith,
                parse-append h (nonce ++ x) hh lr v,
                drop-append 26 h.bytes (nonce ++ x) hh,
                take-append 24 nonce x hn,
                drop-append 24 nonce x hn,
                sym (drop-drop 24 26 (h.bytes ++ (nonce ++ x))),
                w.decrypt_encrypt k nonce (descriptor_aad h i) (descriptor_plaintext i) x hx,
                validate_plaintext-descriptor_plaintext i li,
              )),
        ),
      )

  seal_descriptor_from :
      (nonce x : Bytes) (h : DescriptorHeader) (i : BackupId) (k : DescriptorBackupKey)
      → validate h ≡ ok tt
      → derive_id c m a ≡ ok i
      → derive_descriptor_key c m a ≡ ok k
      → c.aead_encrypt k.bytes nonce (descriptor_aad h i) (descriptor_plaintext i) ≡ some x
      → seal_descriptor c m a (some nonce) h ≡ ok (h.bytes ++ (nonce ++ x))
  unfolding seal_descriptor
  seal_descriptor_from nonce x h i k v hi hk hx = ground arith

  seal_again :
      (s p : Bytes) (h : DescriptorHeader) (i : BackupId) (k : DescriptorBackupKey)
      → parse s ≡ ok h
      → derive_id c m a ≡ ok i
      → derive_descriptor_key c m a ≡ ok k
      → c.aead_decrypt k.bytes (slice 26 24 s) (descriptor_aad h i) (drop 50 s) ≡ some p
      → validate_plaintext p i ≡ ok tt
      → seal_descriptor c m a (some (slice 26 24 s)) h ≡ ok s
  seal_again s p h i k parsed hi hk hp hv =
      let (ls, hb, v) = parse-eq-ok s h parsed in
      let sealed = w.encrypt_decrypt k.bytes _ _ p (drop 50 s) hp in
      seal_descriptor_from (slice 26 24 s) (drop 50 s) h i k v hi hk
        (rw (validate_plaintext-eq-ok p i hv) sealed)
      ∙ ap ok (rw (slice-append-drop 26 24 s, hb) (take-append-drop 26 s))

  -- Given lawful cryptography (the cipher is deterministic): what opens was sealed. Sealing the
  -- header again, with the nonce read from the descriptor, gives the descriptor back, byte for
  -- byte, so no other bytes are accepted.
  pub seal_descriptor-open_descriptor :
      (s : Bytes) (h : DescriptorHeader) (i : BackupId)
      → open_descriptor c m a s ≡ ok (h, i)
      → seal_descriptor c m a (some (slice 26 24 s)) h ≡ ok s
  unfolding open_descriptor
  seal_descriptor-open_descriptor s h i e =
      let (h', parsed, e₁) = >>=-eq-ok (parse s) _ e in
      let (i', hi, e₂) = >>=-eq-ok (derive_id c m a) _ e₁ in
      let (k, hk, e₃) = >>=-eq-ok (derive_descriptor_key c m a) _ e₂ in
      let (p, hp, e₄) =
        >>=-eq-ok
          (or_fail (c.aead_decrypt k.bytes (slice 26 24 s) (descriptor_aad h' i') (drop 50 s))
            authentication_failed)
          _ e₃ in
      let (u, hv, e₅) = >>=-eq-ok (validate_plaintext p i') _ e₄ in
      subst (λ x. seal_descriptor c m a (some (slice 26 24 s)) x ≡ ok s)
        (ok_pair-injective h' h i' i e₅)
        (seal_again s p h' i' k parsed hi hk (or_fail-eq-ok _ _ p hp) hv)
