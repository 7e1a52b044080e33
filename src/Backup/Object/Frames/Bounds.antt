-- ===== src/Backup/Object/Frames/Bounds.antt =====
-- The counters of the envelope writer, on success and on every failure.
use kchat_rust_sdk.Base.{
  ℕ, zero, suc, ◌≤◌, ◌≡◌, refl, List, [], ◌∷◌, arith, Bytes, length, length-append,
}
use kchat_rust_sdk.Backup.Limits.{
  max_ciphertext_object_bytes, max_compressed_object_bytes, max_encrypted_blocks_per_object,
}
use kchat_rust_sdk.Backup.Context.{BackupObjectContext}
use kchat_rust_sdk.Backup.Object.Io.{ByteSink, checked_add_limited}
use kchat_rust_sdk.Backup.Object.Stream.{StreamCipher}
use kchat_rust_sdk.Backup.Object.Frames.{
  EnvelopeWriter, write_chunks, write_envelope_bytes, write_encrypted_block, seal_block,
  seal_blocks, write_compressed, write, write_pieces, new_envelope, finish_envelope,
}

-- What holds of the counters between any two calls.
pub record IsCounted {T E : Type 0} (w : EnvelopeWriter T E) : Type 0 where
  pub counted : w.ciphertext_bytes ≡ length w.hashed
  pub ciphertext : w.ciphertext_bytes ≤ max_ciphertext_object_bytes
  pub compressed : w.compressed_bytes ≤ max_compressed_object_bytes
  pub blocks : w.block_count ≤ max_encrypted_blocks_per_object

module _ {T : Type 0} (c : StreamCipher) (out : ByteSink T) where
  write_chunks-IsCounted :
      (l : List Bytes) (w : EnvelopeWriter T c.Encryptor)
      → IsCounted w
      → IsCounted (write_chunks c out l w).1
  unfolding write_chunks
  write_chunks-IsCounted [] w v = v
  write_chunks-IsCounted (x ∷ l) w v =
      ground (arith, write_chunks-IsCounted l (record w { sink = (out.write_chunk x w.sink).1 }))

  write_envelope_bytes-IsCounted :
      (bytes : Bytes) (w : EnvelopeWriter T c.Encryptor)
      → IsCounted w
      → IsCounted (write_envelope_bytes c out bytes w).1
  unfolding write_envelope_bytes checked_add_limited
  write_envelope_bytes-IsCounted bytes w v =
      grind (arith, length-append w.hashed bytes, write_chunks-IsCounted)

  write_encrypted_block-IsCounted :
      (x : Bytes) (w : EnvelopeWriter T c.Encryptor)
      → IsCounted w
      → IsCounted (write_encrypted_block c out x w).1
  unfolding write_encrypted_block checked_add_limited
  write_encrypted_block-IsCounted x w v = grind (arith, write_envelope_bytes-IsCounted)

  seal_block-IsCounted :
      (w : EnvelopeWriter T c.Encryptor) → IsCounted w → IsCounted (seal_block c out w).1
  unfolding seal_block
  seal_block-IsCounted w v = grind (arith, write_encrypted_block-IsCounted)

  seal_blocks-IsCounted :
      (fuel : ℕ) (w : EnvelopeWriter T c.Encryptor)
      → IsCounted w
      → IsCounted (seal_blocks c out fuel w).1
  unfolding seal_blocks
  seal_blocks-IsCounted zero w v = v
  seal_blocks-IsCounted (suc fuel) w v =
      ground (arith, seal_block-IsCounted w v, seal_blocks-IsCounted fuel (seal_block c out w).1)

  -- Whatever the sink and the cipher do, and whether the write succeeds or fails, the byte
  -- counter stays the length of what was hashed, and no counter passes its limit, if that was so
  -- before.
  pub write-IsCounted :
      (bytes : Bytes) (w : EnvelopeWriter T c.Encryptor)
      → IsCounted w
      → IsCounted (write c out bytes w).1
  unfolding write write_compressed checked_add_limited
  write-IsCounted bytes w v = grind (arith, seal_blocks-IsCounted)

  pub new_envelope-IsCounted :
      (context : BackupObjectContext) (nonce : Bytes) (t : T)
      → IsCounted (new_envelope c out context nonce t).1
  unfolding new_envelope
  new_envelope-IsCounted context nonce t = write_envelope_bytes-IsCounted _ _ (record {
    counted = refl;
    ciphertext = omega arith;
    compressed = omega arith;
    blocks = omega arith;
  })

  pub finish_envelope-IsCounted :
      (w : EnvelopeWriter T c.Encryptor) → IsCounted w → IsCounted (finish_envelope c out w).1
  unfolding finish_envelope
  finish_envelope-IsCounted w v = grind (arith, write_encrypted_block-IsCounted)

  pub write_pieces-IsCounted :
      (pieces : List Bytes) (w : EnvelopeWriter T c.Encryptor)
      → IsCounted w
      → IsCounted (write_pieces c out pieces w).1
  unfolding write_pieces
  write_pieces-IsCounted [] w v = v
  write_pieces-IsCounted (piece ∷ rest) w v =
      ground (arith, write-IsCounted piece w v, write_pieces-IsCounted rest (write c out piece w).1)
