-- ===== src/Backup/Object/Frames.antt =====
-- `EnvelopeWriter` of crates/kchat-backup/src/object/writer.rs: compressed bytes go in, and length
-- prefixed encrypted blocks of 64 KiB go out to the sink.
pub mod Bounds
pub mod Layout
pub mod Refinement
use kchat_rust_sdk.Base.{
  ℕ, zero, suc, ◌+◌, Option, none, some, List, [], ◌∷◌, ◌++◌, ◌||◌, Bytes, length, take, drop, ltb,
  leb, if◌then◌else◌, ok, err, or_fail, u32_be,
}
use kchat_rust_sdk.Backup.Error.{BackupErrorCode, Fallible, invalid_state, resource_limit_exceeded}
use kchat_rust_sdk.Backup.Limits.{
  max_io_chunk_bytes, max_ciphertext_object_bytes, max_compressed_object_bytes,
  max_encrypted_blocks_per_object,
}
use kchat_rust_sdk.Backup.Exec.{Exec, pure, raise, lift, gets, modify, ◌>>=◌, ◌>>◌}
use kchat_rust_sdk.Backup.Context.{BackupObjectContext}
use kchat_rust_sdk.Backup.Object.Envelope.{
  aead_tag_bytes, compressed_block_bytes, envelope_version, serialize_header,
}
use kchat_rust_sdk.Backup.Object.Io.{ByteSink, checked_add_limited}
use kchat_rust_sdk.Backup.Object.Stream.{StreamCipher}

-- Names the descriptor of a finished object.
pub record BackupObjectDescriptor : Type 0 where
  pub ciphertext_size : ℕ
  pub ciphertext_sha256 : Bytes
  pub format_version : ℕ

-- The fields of the writer and, since it holds the sink, the sink's state. `hashed` is what the
-- SHA-256 state has been fed.
pub record EnvelopeWriter (T E : Type 0) : Type 0 where
  pub sink : T
  pub encryptor : Option E
  pub canonical_context : Bytes
  pub pending : Bytes
  pub compressed_bytes : ℕ
  pub ciphertext_bytes : ℕ
  pub block_count : ℕ
  pub hashed : Bytes
  pub failure : Option BackupErrorCode

-- `bytes.chunks(n)`, with the length of the bytes as fuel.
unfoldable pub chunks : ℕ → ℕ → Bytes → List Bytes
chunks zero n bytes = []
chunks (suc fuel) n [] = []
chunks (suc fuel) n (b ∷ bs) = take n (b ∷ bs) ∷ chunks fuel n (drop n (b ∷ bs))

module _ {T : Type 0} (c : StreamCipher) (out : ByteSink T) where
  unfoldable pub write_chunks : List Bytes → Exec (EnvelopeWriter T c.Encryptor) (Unit {0})
  write_chunks [] w = (ok tt, w)
  write_chunks (chunk ∷ rest) w =
      let (r, t) = out.write_chunk chunk w.sink in
      let w' : EnvelopeWriter T c.Encryptor = record w { sink = t } in
      elim r [ err e ↦ (err e, w') | ok _ ↦ write_chunks rest w' ]

  unfoldable pub write_envelope_bytes : Bytes → Exec (EnvelopeWriter T c.Encryptor) (Unit {0})
  write_envelope_bytes bytes = do
    current ← gets (λ w. w.ciphertext_bytes)
    total ← lift (checked_add_limited current (length bytes) max_ciphertext_object_bytes)
    modify (λ w. record w { ciphertext_bytes = total; hashed = w.hashed ++ bytes })
    write_chunks (chunks (length bytes) max_io_chunk_bytes bytes)

  -- `u32::try_from(ciphertext.len())` cannot fail below the bound that is tested first; it is kept.
  unfoldable pub write_encrypted_block : Bytes → Exec (EnvelopeWriter T c.Encryptor) (Unit {0})
  write_encrypted_block ciphertext =
      if ltb (length ciphertext) aead_tag_bytes
        || ltb (compressed_block_bytes + aead_tag_bytes) (length ciphertext)
      then raise invalid_state
      else do
        current ← gets (λ w. w.block_count)
        count ← lift (checked_add_limited current 1 max_encrypted_blocks_per_object)
        modify (λ w. record w { block_count = count })
        len ← lift (
            if ltb 4294967295 (length ciphertext)
            then err invalid_state
            else ok (length ciphertext))
        write_envelope_bytes (u32_be len)
        write_envelope_bytes ciphertext

  -- One block: the pending bytes are split, and the first 64 KiB are sealed and written.
  unfoldable pub seal_block : Exec (EnvelopeWriter T c.Encryptor) (Unit {0})
  seal_block = do
    block ← gets (λ w. take compressed_block_bytes w.pending)
    modify (λ w. record w { pending = drop compressed_block_bytes w.pending })
    encryptor ← gets (λ w. w.encryptor)
    e ← lift (or_fail encryptor invalid_state)
    aad ← gets (λ w. w.canonical_context)
    (ciphertext, e') ← lift (or_fail (c.encrypt_next e aad block) invalid_state)
    modify (λ w. record w { encryptor = some e' })
    write_encrypted_block ciphertext

  -- `while self.pending.len() >= COMPRESSED_BLOCK_BYTES`, at most once for each pending byte.
  unfoldable pub seal_blocks : ℕ → Exec (EnvelopeWriter T c.Encryptor) (Unit {0})
  seal_blocks zero w = (ok tt, w)
  seal_blocks (suc fuel) w =
      let more = (seal_block >>= λ _. seal_blocks fuel) w in
      if leb compressed_block_bytes (length w.pending) then more else (ok tt, w)

  unfoldable pub write_compressed : Bytes → Exec (EnvelopeWriter T c.Encryptor) (Unit {0})
  write_compressed bytes = do
    current ← gets (λ w. w.compressed_bytes)
    total ← lift (checked_add_limited current (length bytes) max_compressed_object_bytes)
    modify (λ w. record w { compressed_bytes = total; pending = w.pending ++ bytes })
    fuel ← gets (λ w. length w.pending)
    seal_blocks fuel

  -- `Write::write`: the error code is kept for `take_failure`.
  unfoldable pub write : Bytes → Exec (EnvelopeWriter T c.Encryptor) (Unit {0})
  write bytes w =
      let (r, w') = write_compressed bytes w in
      elim r [ err e ↦ (err e, record w' { failure = some e }) | ok _ ↦ (ok tt, w') ]

  -- The compressor hands its pieces to `write` one by one, and stops at the first failure.
  unfoldable pub write_pieces : List Bytes → Exec (EnvelopeWriter T c.Encryptor) (Unit {0})
  write_pieces [] w = (ok tt, w)
  write_pieces (piece ∷ rest) w =
      let (r, w') = write piece w in elim r [ err e ↦ (err e, w') | ok _ ↦ write_pieces rest w' ]

  unfoldable pub new_envelope :
      BackupObjectContext → Bytes → T → Fallible (Unit {0}) × EnvelopeWriter T c.Encryptor
  new_envelope context nonce_prefix t =
      write_envelope_bytes (serialize_header nonce_prefix) (record {
        sink = t;
        encryptor = some (c.new_encryptor context.object_key.bytes nonce_prefix);
        canonical_context = context.canonical_bytes;
        pending = [];
        compressed_bytes = 0;
        ciphertext_bytes = 0;
        block_count = 0;
        hashed = [];
        failure = none;
      })

  unfoldable pub finish_envelope : Exec (EnvelopeWriter T c.Encryptor) BackupObjectDescriptor
  finish_envelope = do
    encryptor ← gets (λ w. w.encryptor)
    e ← lift (or_fail encryptor invalid_state)
    block ← gets (λ w. w.pending)
    modify (λ w. record w { encryptor = none; pending = [] })
    aad ← gets (λ w. w.canonical_context)
    ciphertext ← lift (or_fail (c.encrypt_last e aad block) invalid_state)
    write_encrypted_block ciphertext
    size ← gets (λ w. w.ciphertext_bytes)
    hashed ← gets (λ w. w.hashed)
    pure (record {
      ciphertext_size = size;
      ciphertext_sha256 = c.sha256 hashed;
      format_version = envelope_version;
    })
