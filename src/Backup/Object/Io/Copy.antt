-- ===== src/Backup/Object/Io/Copy.antt =====
-- The copy loop ends, and copies what was read.
use kchat_rust_sdk.Base.{
  ℕ, zero, suc, ◌+◌, ◌≤◌, ◌<◌, ◌≡◌, ◌≢◌, ◌++◌, [], none, some, inl, inr, arith, Bytes, length,
  length-append, ok, Result-cases, Option-cases, ap, ◌∙◌, subst, ◌⊎◌, length-eq_zero,
}
use kchat_rust_sdk.Backup.Limits.{max_io_chunk_bytes, max_plaintext_object_bytes}
use kchat_rust_sdk.Backup.Object.Io.{
  ByteSource, ByteSink, CopyOutcome, checked_add_limited, copy_loop, copy_opaque_bytes,
}

module _ {S T : Type 0} (source : ByteSource S) (sink : ByteSink T) where
  copy_loop-ne-none :
      (fuel total : ℕ) (s : S) (t : T)
      → total ≤ max_plaintext_object_bytes
      → max_plaintext_object_bytes < fuel + total
      → copy_loop source sink fuel total s t ≢ none
  unfolding copy_loop checked_add_limited
  copy_loop-ne-none zero total s t h k = absurd (omega arith)
  copy_loop-ne-none (suc fuel) total s t h k =
      elim (Result-cases (source.read_chunk max_io_chunk_bytes s).0) [
        | inl (chunk, e) ↦ ground (
          arith,
          copy_loop-ne-none fuel (total + length chunk) (source.read_chunk max_io_chunk_bytes s).1
              (sink.write_chunk chunk t).1,
        )
        | inr (x, e) ↦ ground arith
      ]

  -- The chunks that pass from the source to the sink, none of them empty, as one string of bytes.
  pub data Copied : S → T → Bytes → S → T → Type 0 where
    stop : {s : S} {t : T} → Copied s t [] s t
    pass :
        {s s' : S} {t t' : T} {rest : Bytes} (chunk : Bytes)
        → (source.read_chunk max_io_chunk_bytes s).0 ≡ ok chunk
        → (sink.write_chunk chunk t).0 ≡ ok tt
        → 0 < length chunk
        → length chunk ≤ max_io_chunk_bytes
        → Copied (source.read_chunk max_io_chunk_bytes s).1 (sink.write_chunk chunk t).1 rest s' t'
        → Copied s t (chunk ++ rest) s' t'

  -- What a copy that returns `n` has done, from a state in which `total` bytes were copied.
  pub record IsCopy (total : ℕ) (s : S) (t : T) (n : ℕ) (o : CopyOutcome S T) : Type 0 where
    pub bytes : Bytes
    pub last : S
    pub copied : Copied s t bytes last o.sink
    pub count : n ≡ total + length bytes
    pub bounded : n ≤ max_plaintext_object_bytes
    pub at_eof : (source.read_chunk max_io_chunk_bytes last).0 ≡ ok []
    pub ends : (source.read_chunk max_io_chunk_bytes last).1 ≡ o.source

  IsCopy-pass :
      {total n : ℕ} {s : S} {t : T} {o : CopyOutcome S T} (chunk : Bytes)
      → (source.read_chunk max_io_chunk_bytes s).0 ≡ ok chunk
      → (sink.write_chunk chunk t).0 ≡ ok tt
      → 0 < length chunk
      → length chunk ≤ max_io_chunk_bytes
      → IsCopy
          (total + length chunk)
          (source.read_chunk max_io_chunk_bytes s).1
          (sink.write_chunk chunk t).1
          n
          o
      → IsCopy total s t n o
  IsCopy-pass chunk r w f h c = record {
    bytes = chunk ++ c.bytes;
    last = c.last;
    copied = pass chunk r w f h c.copied;
    count = omega (arith, c.count, length-append chunk c.bytes);
    bounded = c.bounded;
    at_eof = c.at_eof;
    ends = c.ends;
  }

  -- One round that read `chunk` and led to a result: it was the last one, or the loop went on.
  round-ok :
      (fuel total n : ℕ) (s : S) (t : T) (chunk : Bytes) (o : CopyOutcome S T)
      → copy_loop source sink (suc fuel) total s t ≡ some o
      → o.result ≡ ok n
      → (source.read_chunk max_io_chunk_bytes s).0 ≡ ok chunk
      → ((chunk ≡ [])
          × (n ≡ total)
          × ((source.read_chunk max_io_chunk_bytes s).1 ≡ o.source)
          × (t ≡ o.sink))
        ⊎ ((0 < length chunk)
            × (length chunk ≤ max_io_chunk_bytes)
            × (total + length chunk ≤ max_plaintext_object_bytes)
            × ((sink.write_chunk chunk t).0 ≡ ok tt)
            × (copy_loop source sink fuel
                  (total + length chunk)
                  (source.read_chunk max_io_chunk_bytes s).1
                  (sink.write_chunk chunk t).1
                ≡ some o))
  unfolding copy_loop checked_add_limited
  round-ok fuel total n s t chunk o e r read = ground (arith, length-eq_zero chunk)

  copy_loop-IsCopy :
      (fuel total n : ℕ) (s : S) (t : T) (o : CopyOutcome S T)
      → total ≤ max_plaintext_object_bytes
      → copy_loop source sink fuel total s t ≡ some o
      → o.result ≡ ok n
      → IsCopy total s t n o
  unfolding copy_loop
  copy_loop-IsCopy zero total n s t o h e r = absurd (ground arith)
  copy_loop-IsCopy (suc fuel) total n s t o h e r =
      elim (Result-cases (source.read_chunk max_io_chunk_bytes s).0) [
        | inl (chunk, read) ↦ elim (round-ok fuel total n s t chunk o e r read) [
          | inl done ↦ record {
            bytes = [];
            last = s;
            copied = subst (λ u. Copied s t [] s u) done.3 stop;
            count = omega (arith, done.1);
            bounded = omega (arith, done.1);
            at_eof = read ∙ ap ok done.0;
            ends = done.2;
          }
          | inr more ↦
              IsCopy-pass chunk read more.3 more.0 more.1
                (copy_loop-IsCopy fuel (total + length chunk) n _ _ o more.2 more.4 r)
        ]
        | inr (x, read) ↦ absurd (ground arith)
      ]

  -- The copy of any source to any sink ends within its fuel, whatever the two do.
  pub copy_opaque_bytes_total :
      (s : S) (t : T) → (o : CopyOutcome S T) × (copy_opaque_bytes source sink s t ≡ some o)
  unfolding copy_opaque_bytes
  copy_opaque_bytes_total s t =
      elim (Option-cases (copy_loop source sink (suc (suc max_plaintext_object_bytes)) 0 s t)) [
        | inl out ↦ absurd (copy_loop-ne-none _ 0 s t (omega arith) (omega arith) out)
        | inr found ↦ found
      ]

  -- If the copy returns `n`, then the sink was given exactly the chunks that the source gave before
  -- its first empty one, in order, and `n` is their length, at most 1 GiB. The copy stops at that
  -- first empty chunk, and the source is left behind it.
  pub copy_opaque_bytes-IsCopy :
      (s : S) (t : T) (o : CopyOutcome S T) (n : ℕ)
      → copy_opaque_bytes source sink s t ≡ some o
      → o.result ≡ ok n
      → IsCopy 0 s t n o
  unfolding copy_opaque_bytes
  copy_opaque_bytes-IsCopy s t o n e r = copy_loop-IsCopy _ 0 n s t o (omega arith) e r
