-- ===== src/Backup/Object/Reader.antt =====
-- `CheckedSource` of crates/kchat-backup/src/object/reader.rs: reading with a cap and with cancellation.
pub mod Reads
pub mod Open
pub mod Total
pub mod Feed
pub mod Frames
pub mod Authentic
use kchat_rust_sdk.Base.{
  ℕ, zero, suc, ◌+◌, ◌-◌, min, Bool, true, false, ◌||◌, Option, none, some, [], ◌++◌, Bytes, length,
  ltb, ◌==◌, if◌then◌else◌, ok, err, from_be,
}
use kchat_rust_sdk.Backup.Error.{
  Fallible, invalid_state, cancelled, resource_limit_exceeded, malformed_object,
}
use kchat_rust_sdk.Backup.Limits.{max_ciphertext_object_bytes, max_io_chunk_bytes}
use kchat_rust_sdk.Backup.Exec.{Exec, pure, raise, lift, gets, modify, ◌>>=◌, ◌>>◌}
use kchat_rust_sdk.Backup.Object.Envelope.{aead_tag_bytes, compressed_block_bytes}
use kchat_rust_sdk.Backup.Object.Io.{ByteSource}

-- The fields and, since it borrows the source, the source's state.
pub record CheckedSource (S : Type 0) : Type 0 where
  pub source : S
  pub bytes : ℕ
  pub eof : Bool

abbrev pub check_length : ℕ → Fallible (Option ℕ)
check_length len =
    if ltb len aead_tag_bytes || ltb (compressed_block_bytes + aead_tag_bytes) len
    then err malformed_object
    else ok (some len)

module _ {S : Type 0} (input : ByteSource S) where
  unfoldable pub check_cancelled : Exec (CheckedSource S) (Unit {0})
  check_cancelled c =
      let (stop, s) = input.is_cancelled c.source in
      let c' : CheckedSource S = record c { source = s } in
      elim stop [ true ↦ (err cancelled, c') | false ↦ (ok tt, c') ]

  unfoldable pub new_checked_source : S → Fallible (Unit {0}) × CheckedSource S
  new_checked_source s = check_cancelled (record { source = s; bytes = 0; eof = false })

  abbrev pub read_source : ℕ → Exec (CheckedSource S) Bytes
  read_source capacity c =
      let (r, s) = input.read_chunk capacity c.source in (r, record c { source = s })

  -- The room for a read into `n` bytes. The difference is exact: a reader past the cap has failed.
  unfoldable pub read_capacity : ℕ → ℕ → ℕ
  read_capacity n bytes = min (min n max_io_chunk_bytes) (max_ciphertext_object_bytes - bytes + 1)

  unfoldable pub read_open : ℕ → Exec (CheckedSource S) Bytes
  read_open n = do
    capacity ← gets (λ c. read_capacity n c.bytes)
    chunk ← read_source capacity
    check_cancelled
    if ltb capacity (length chunk) then raise invalid_state else do
      modify (λ c. record c { bytes = c.bytes + length chunk })
      total ← gets (λ c. c.bytes)
      if ltb max_ciphertext_object_bytes total
          then raise resource_limit_exceeded
          else do modify (λ c. record c { eof = length chunk == 0 }); pure chunk

  -- A read into `n` bytes gives the part that was filled.
  unfoldable pub read : ℕ → Exec (CheckedSource S) Bytes
  read n = do check_cancelled; eof ← gets (λ c. c.eof); if eof then pure [] else read_open n

  -- Each round reads at least one byte of those that are missing, so there are no more rounds than
  -- bytes.
  unfoldable pub read_rounds : ℕ → ℕ → Exec (CheckedSource S) Bytes
  read_rounds zero missing c = (ok [], c)
  read_rounds (suc fuel) zero c = (ok [], c)
  read_rounds (suc fuel) (suc missing) c =
      let (r, c') = read (suc missing) c in
      elim r [
        | err e ↦ (err e, c')
        | ok chunk ↦
            let (r', c'') = read_rounds fuel (suc missing - length chunk) c' in
            if length chunk == 0
            then (err malformed_object, c')
            else elim r' [ err e ↦ (err e, c'') | ok rest ↦ (ok (chunk ++ rest), c'') ]
      ]

  unfoldable pub read_exact : ℕ → Exec (CheckedSource S) Bytes
  read_exact n = read_rounds n n

  unfoldable pub next_length : Exec (CheckedSource S) (Option ℕ)
  next_length = do
    first ← read 1
    if length first == 0
        then pure none
        else do rest ← read_exact 3; lift (check_length (from_be 0 (first ++ rest)))
