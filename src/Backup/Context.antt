-- ===== src/Backup/Context.antt =====
-- crates/kchat-backup/src/context.rs and account.rs: what a backup object is bound to.
pub mod Binding
use kchat_rust_sdk.Base.{
  ℕ, Bool, not, ◌++◌, Bytes, codes, bytes_eq, u16_be, replicate, ◌==◌, if◌then◌else◌, ok, err,
  ◌>>=◌, or_fail,
}
use kchat_rust_sdk.Backup.Error.{Fallible, invalid_argument, unsupported_format, context_mismatch}
use kchat_rust_sdk.Backup.Crypto.{Crypto}
use kchat_rust_sdk.Backup.Key.{
  BackupKeyMaterial, ObjectBackupKey, derive_account_key, derive_backup_id, derive_object,
}

pub record BackupAccountId : Type 0 where
  pub bytes : Bytes

pub record BackupId : Type 0 where
  pub bytes : Bytes

pub record BackupChunkId : Type 0 where
  pub bytes : Bytes

pub record BackupObjectContext : Type 0 where
  pub canonical_bytes : Bytes
  pub object_key : ObjectBackupKey

abbrev pub backup_format_version : ℕ
backup_format_version = 1

abbrev pub object_context_label : Bytes
object_context_label = codes "KCHAT_BACKUP_OBJECT_CONTEXT_V1"

unfoldable pub chunk_id_from_bytes : Bytes → Fallible BackupChunkId
chunk_id_from_bytes bytes =
    if bytes_eq bytes (replicate 32 0) then err invalid_argument else ok (record { bytes = bytes })

-- The array that `BackupObjectContextV1::new` fills, section by section.
unfoldable pub canonical_context : ℕ → BackupId → BackupChunkId → Bytes
canonical_context format_version backup_id chunk_id =
    object_context_label ++ (u16_be format_version ++ (backup_id.bytes ++ chunk_id.bytes))

module _ (c : Crypto) where
  unfoldable pub parse_account_id : Bytes → Fallible BackupAccountId
  parse_account_id value = do
    uuid ← or_fail (c.parse_uuid value) invalid_argument
    ok (record { bytes = uuid })

  unfoldable pub derive_id : BackupKeyMaterial → BackupAccountId → Fallible BackupId
  derive_id master_key account_id = do
    account_key ← derive_account_key c master_key account_id.bytes
    bytes ← derive_backup_id c account_key
    ok (record { bytes = bytes })

  unfoldable pub new_context :
      BackupKeyMaterial
      → BackupAccountId
      → BackupId
      → ℕ
      → BackupChunkId
      → Fallible BackupObjectContext
  new_context master_key account_id backup_id format_version chunk_id =
      if not (format_version == backup_format_version) then err unsupported_format else do
        expected_backup_id ← derive_id master_key account_id
        if not (bytes_eq backup_id.bytes expected_backup_id.bytes) then err context_mismatch else do
          let canonical_bytes = canonical_context format_version backup_id chunk_id
          account_key ← derive_account_key c master_key account_id.bytes
          object_key ← derive_object c account_key canonical_bytes
          ok (record { canonical_bytes = canonical_bytes; object_key = object_key })
