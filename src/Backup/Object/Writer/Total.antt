-- ===== src/Backup/Object/Writer/Total.antt =====
-- Sealing ends, whatever the source, the sink and the libraries do.
use kchat_rust_sdk.Base.{
  ℕ, zero, suc, ◌+◌, ◌≤◌, ◌<◌, ◌≡◌, ◌≢◌, Option, none, some, inl, inr, arith, Bytes, length, ok,
  Result-cases, Option-cases, Bool-cases, ◌==◌,
}
use kchat_rust_sdk.Backup.Limits.{max_plaintext_object_bytes, max_io_chunk_bytes}
use kchat_rust_sdk.Backup.Context.{BackupObjectContext}
use kchat_rust_sdk.Backup.Object.Io.{ByteSource, ByteSink, checked_add_limited}
use kchat_rust_sdk.Backup.Object.Stream.{StreamCipher, Compressor}
use kchat_rust_sdk.Backup.Object.Frames.{BackupObjectDescriptor}
use kchat_rust_sdk.Backup.Object.Writer.{
  ActiveWriter, Writer, LoopOutcome, encode, write_active, write_plaintext, new_writer, seal_loop,
  seal_chunk, seal_object,
}

module _ {T : Type 0} (c : StreamCipher) (z : Compressor) (out : ByteSink T) where
  -- The plaintext that an active writer has taken.
  abbrev pub plaintext : Option (ActiveWriter T c.Encryptor z.Encoder) → ℕ
  plaintext none = 0
  plaintext (some a) = a.plaintext_bytes

  write_plaintext-plaintext :
      (bytes : Bytes) (w : Writer c z out)
      → (write_plaintext c z out bytes w).0 ≡ ok tt
      → (plaintext (write_plaintext c z out bytes w).1.current ≡ plaintext w.current + length bytes)
        × (plaintext w.current + length bytes ≤ max_plaintext_object_bytes)
  unfolding write_plaintext write_active encode checked_add_limited
  write_plaintext-plaintext bytes w h = ground arith

  new_writer-plaintext :
      (random : Option Bytes) (context : BackupObjectContext) (t : T) (w : Writer c z out)
      → (new_writer c z out random context t).0 ≡ ok w
      → plaintext w.current ≡ 0
  unfolding new_writer
  new_writer-plaintext random context t w h = ground arith

module _ {S T : Type 0} (c : StreamCipher) (z : Compressor) (source : ByteSource S)
    (out : ByteSink T) where
  seal_chunk-ne-none :
      (fuel : ℕ) (chunk : Bytes) (s : S) (w : Writer c z out)
      → ((write_plaintext c z out chunk w).0 ≡ ok tt
          → seal_loop c z source out fuel
              (source.is_cancelled s).1
              (write_plaintext c z out chunk w).1
            ≢ none)
      → seal_chunk c z source out (seal_loop c z source out fuel) chunk s w ≢ none
  unfolding seal_chunk
  seal_chunk-ne-none fuel chunk s w more = ground arith

  seal_loop-ne-none :
      (fuel : ℕ) (s : S) (w : Writer c z out)
      → plaintext c z out w.current ≤ max_plaintext_object_bytes
      → max_plaintext_object_bytes < fuel + plaintext c z out w.current
      → seal_loop c z source out fuel s w ≢ none
  unfolding seal_loop
  seal_loop-ne-none zero s w h k = absurd (omega arith)
  seal_loop-ne-none (suc fuel) s w h k =
      let s₁ = (source.is_cancelled s).1 in
      let s₂ = (source.read_chunk max_io_chunk_bytes s₁).1 in
      elim (Result-cases (source.read_chunk max_io_chunk_bytes s₁).0) [
        | inl (chunk, read) ↦ elim (Bool-cases (length chunk == 0)) [
          | inl empty ↦ ground arith
          | inr some_bytes ↦
              let more = seal_chunk-ne-none fuel chunk s₂ w (λ written.
                let (grown, within) = write_plaintext-plaintext c z out chunk w written in
                seal_loop-ne-none fuel _ _ (omega (arith, grown, within))
                  (ground (arith, grown))) in
              ground (arith, more)
        ]
        | inr (x, read) ↦ ground arith
      ]

  seal_object-ne-none :
      (random : Option Bytes) (context : BackupObjectContext) (s : S) (t : T)
      → seal_object c z source out random context s t ≢ none
  unfolding seal_object
  seal_object-ne-none random context s t =
      let s₁ = (source.is_cancelled s).1 in
      elim (Result-cases (new_writer c z out random context t).0) [
        | inl (w, made) ↦
            let zero_ = new_writer-plaintext c z out random context t w made in
            let ends =
              seal_loop-ne-none (suc (suc max_plaintext_object_bytes)) s₁ w (omega (arith, zero_))
                (omega (arith, zero_)) in
            ground (arith, ends)
        | inr (x, made) ↦ ground arith
      ]

  -- Sealing ends within its fuel for every source, sink, cipher and compressor.
  pub seal_object_total :
      (random : Option Bytes) (context : BackupObjectContext) (s : S) (t : T)
      → (o : LoopOutcome BackupObjectDescriptor S (Writer c z out)) × (seal_object c z source out
            random context s t
          ≡ some o)
  seal_object_total random context s t =
      elim (Option-cases (seal_object c z source out random context s t)) [
        | inl n ↦ absurd (seal_object-ne-none random context s t n)
        | inr found ↦ found
      ]
