-- ===== src/Backup/Descriptor.antt =====
-- crates/kchat-backup/src/descriptor.rs: the 110-byte KCBD descriptor.
mod Header
pub mod Validity
mod Plaintext
pub mod RoundTrip
unfoldable pub use Header.*
use kchat_rust_sdk.Base.{
  ◌+◌, Option, ◌++◌, ◌||◌, not, Bytes, codes, bytes_eq, u16_be, take, drop, slice, length,
  replicate, ◌==◌, if◌then◌else◌, ok, err, ◌>>=◌, ◌>>◌, or_fail,
}
use kchat_rust_sdk.Backup.Error.{Fallible, io_error, invalid_state, authentication_failed}
use kchat_rust_sdk.Backup.Crypto.{Crypto}
use kchat_rust_sdk.Backup.Key.{
  BackupKeyMaterial, DescriptorBackupKey, derive_account_key, derive_descriptor,
}
use kchat_rust_sdk.Backup.Context.{BackupAccountId, BackupId, derive_id}

abbrev pub aad_label : Bytes
aad_label = codes "KCHAT_BACKUP_DESCRIPTOR_V1"

unfoldable pub descriptor_plaintext : BackupId → Bytes
descriptor_plaintext backup_id =
    magic ++ (u16_be format_version ++ (backup_id.bytes ++ (u16_be 1 ++ replicate 4 0)))

unfoldable pub validate_plaintext : Bytes → BackupId → Fallible (Unit {0})
validate_plaintext plaintext backup_id =
    if not (length plaintext == plaintext_bytes)
      || not (bytes_eq (take 4 plaintext) magic)
      || not (bytes_eq (slice 4 2 plaintext) (u16_be format_version))
      || not (bytes_eq (slice 6 32 plaintext) backup_id.bytes)
      || not (bytes_eq (slice 38 2 plaintext) (u16_be 1))
      || not (bytes_eq (slice 40 4 plaintext) (replicate 4 0))
    then err authentication_failed
    else ok tt

unfoldable pub descriptor_aad : DescriptorHeader → BackupId → Bytes
descriptor_aad header backup_id = aad_label ++ (header.bytes ++ backup_id.bytes)

module _ (c : Crypto) (master_key : BackupKeyMaterial) (account_id : BackupAccountId) where
  unfoldable pub derive_descriptor_key : Fallible DescriptorBackupKey
  derive_descriptor_key = do
    account_key ← derive_account_key c master_key account_id.bytes
    derive_descriptor c account_key

  -- `random` is what the system's generator gives for the nonce.
  unfoldable pub seal_descriptor : Option Bytes → DescriptorHeader → Fallible Bytes
  seal_descriptor random header = do
    validate header
    backup_id ← derive_id c master_key account_id
    descriptor_key ← derive_descriptor_key
    nonce ← or_fail random io_error
    ciphertext ←
        or_fail
          (c.aead_encrypt descriptor_key.bytes nonce (descriptor_aad header backup_id)
            (descriptor_plaintext backup_id))
          invalid_state
    ok (header.bytes ++ (nonce ++ ciphertext))

  unfoldable pub open_descriptor : Bytes → Fallible (DescriptorHeader × BackupId)
  open_descriptor serialized = do
    header ← parse serialized
    backup_id ← derive_id c master_key account_id
    descriptor_key ← derive_descriptor_key
    plaintext ←
        or_fail
          (c.aead_decrypt descriptor_key.bytes (slice header_bytes nonce_bytes serialized)
            (descriptor_aad header backup_id) (drop (header_bytes + nonce_bytes) serialized))
          authentication_failed
    validate_plaintext plaintext backup_id
    ok (header, backup_id)
