-- ===== src/Backup/Object/Io.antt =====
-- crates/kchat-backup/src/object/io.rs: the caller's byte source and sink, and the raw copy.
pub mod Copy
use kchat_rust_sdk.Base.{
  ℕ, zero, suc, ◌+◌, Bool, Option, none, some, Bytes, length, ltb, ◌==◌, if◌then◌else◌, ok, err,
}
use kchat_rust_sdk.Backup.Error.{Fallible, invalid_state, resource_limit_exceeded}
use kchat_rust_sdk.Backup.Limits.{max_io_chunk_bytes, max_plaintext_object_bytes}

-- A caller's source in state `S`. `read_chunk n` fills a buffer of `n` bytes and gives the part that
-- its count names, `buffer[..count]`; a count above `n` is a longer list, which the callers refuse.
-- A poll for cancellation may change the state, since another thread may cancel at any time.
pub record ByteSource (S : Type 0) : Type 0 where
  pub read_chunk : ℕ → S → Fallible Bytes × S
  pub is_cancelled : S → Bool × S

-- A caller's sink in state `T`.
pub record ByteSink (T : Type 0) : Type 0 where
  pub write_chunk : Bytes → T → Fallible (Unit {0}) × T

abbrev pub u64_max : ℕ
u64_max = 18446744073709551615

-- `current.checked_add(added).filter(|total| *total <= maximum)` on u64.
unfoldable pub checked_add_limited : ℕ → ℕ → ℕ → Fallible ℕ
checked_add_limited current added maximum =
    if ltb u64_max (current + added)
    then err resource_limit_exceeded
    else if ltb maximum (current + added)
    then err resource_limit_exceeded
    else ok (current + added)

-- The result of the copy, and where it leaves the source and the sink.
pub record CopyOutcome (S T : Type 0) : Type 0 where
  pub result : Fallible ℕ
  pub source : S
  pub sink : T

module _ {S T : Type 0} (source : ByteSource S) (sink : ByteSink T) where
  -- What follows a chunk of at least one byte: `again` is the rest of the loop.
  abbrev copy_chunk :
      (ℕ → S → T → Option (CopyOutcome S T)) → ℕ → Bytes → S → T → Option (CopyOutcome S T)
  copy_chunk again total chunk s t =
      elim (checked_add_limited total (length chunk) max_plaintext_object_bytes) [
        | err e ↦ some (record { result = err e; source = s; sink = t })
        | ok total' ↦
            let (written, t') = sink.write_chunk chunk t in
            elim written [
              | err e ↦ some (record { result = err e; source = s; sink = t' })
              | ok _ ↦ again total' s t'
            ]
      ]

  -- One round of the loop per unit of fuel; `none` means that the fuel ran out.
  unfoldable pub copy_loop : ℕ → ℕ → S → T → Option (CopyOutcome S T)
  copy_loop zero total s t = none
  copy_loop (suc fuel) total s t =
      let (r, s') = source.read_chunk max_io_chunk_bytes s in
      elim r [
        | err e ↦ some (record { result = err e; source = s'; sink = t })
        | ok chunk ↦
            if ltb max_io_chunk_bytes (length chunk)
            then some (record { result = err invalid_state; source = s'; sink = t })
            else if length chunk == 0
            then some (record { result = ok total; source = s'; sink = t })
            else copy_chunk (copy_loop fuel) total chunk s' t
      ]

  -- The fuel is one round more than the bytes that may be copied.
  unfoldable pub copy_opaque_bytes : S → T → Option (CopyOutcome S T)
  copy_opaque_bytes s t = copy_loop (suc (suc max_plaintext_object_bytes)) 0 s t
