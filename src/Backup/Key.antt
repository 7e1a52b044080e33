-- ===== src/Backup/Key.antt =====
-- crates/kchat-backup/src/key: the master keys and the keys derived from them.
pub mod Laws
use kchat_rust_sdk.Base.{
  ℕ, ◌+◌, Option, none, some, ◌++◌, Bytes, codes, length, ◌==◌, if◌then◌else◌, ok, err, ◌>>=◌,
  or_fail,
}
use kchat_rust_sdk.Backup.Error.{
  Fallible, invalid_argument, empty_password, invalid_mnemonic, invalid_mnemonic_key,
  invalid_password_key, io_error, invalid_state,
}
use kchat_rust_sdk.Backup.Crypto.{Crypto}

abbrev pub account_key_label : Bytes
account_key_label = codes "KCHAT_BACKUP_V1_ACCOUNT"

abbrev pub backup_id_key_label : Bytes
backup_id_key_label = codes "KCHAT_BACKUP_V1_NAMESPACE"

abbrev pub object_key_label : Bytes
object_key_label = codes "KCHAT_BACKUP_V1_OBJECT"

abbrev pub descriptor_key_label : Bytes
descriptor_key_label = codes "KCHAT_BACKUP_V1_DESCRIPTOR"

abbrev pub password_root_label : Bytes
password_root_label = codes "KCHAT_BACKUP_PASSWORD_ROOT_V1"

abbrev pub master_key_info : Bytes
master_key_info = codes "KCHAT_BACKUP_V1_MASTER"

pub record AccountBackupKey : Type 0 where
  pub bytes : Bytes

pub record ObjectBackupKey : Type 0 where
  pub bytes : Bytes

pub record DescriptorBackupKey : Type 0 where
  pub bytes : Bytes

pub record PasswordBackupKey : Type 0 where
  pub bytes : Bytes

pub record MnemonicBackupKey : Type 0 where
  pub bytes : Bytes

-- The sealed trait: what a master key can do for the rest of the crate.
pub record BackupKeyMaterial : Type 0 where
  pub derive_account_key_material : Bytes → Fallible Bytes

abbrev pub entropy_len : ℕ → Option ℕ
entropy_len word_count =
    if word_count == 12
    then some 16
    else if word_count == 15
    then some 20
    else if word_count == 18
    then some 24
    else if word_count == 21
    then some 28
    else if word_count == 24
    then some 32
    else none

-- `bytes.try_into()` to a 32-byte array.
abbrev pub to_key_array : Bytes → Option Bytes
to_key_array bytes = if length bytes == 32 then some bytes else none

unfoldable pub import_password_key : Bytes → Fallible PasswordBackupKey
import_password_key bytes = do
  key ← or_fail (to_key_array bytes) invalid_password_key
  ok (record { bytes = key })

unfoldable pub export_password_key : PasswordBackupKey → Bytes
export_password_key k = k.bytes

unfoldable pub import_mnemonic_key : Bytes → Fallible MnemonicBackupKey
import_mnemonic_key bytes = do
  key ← or_fail (to_key_array bytes) invalid_mnemonic_key
  ok (record { bytes = key })

unfoldable pub export_mnemonic_key : MnemonicBackupKey → Bytes
export_mnemonic_key k = k.bytes

module _ (c : Crypto) where
  unfoldable pub derive_hkdf : Bytes → Bytes → Fallible Bytes
  derive_hkdf input_key_material info = or_fail (c.hkdf input_key_material info) invalid_state

  unfoldable pub derive_account_key : BackupKeyMaterial → Bytes → Fallible AccountBackupKey
  derive_account_key master_key account_id = do
    key ← master_key.derive_account_key_material account_id
    ok (record { bytes = key })

  unfoldable pub derive_descriptor : AccountBackupKey → Fallible DescriptorBackupKey
  derive_descriptor k = do
    key ← derive_hkdf k.bytes descriptor_key_label
    ok (record { bytes = key })

  unfoldable pub derive_backup_id : AccountBackupKey → Fallible Bytes
  derive_backup_id k = derive_hkdf k.bytes backup_id_key_label

  unfoldable pub derive_object : AccountBackupKey → Bytes → Fallible ObjectBackupKey
  derive_object k canonical_context = do
    key ← derive_hkdf k.bytes (object_key_label ++ canonical_context)
    ok (record { bytes = key })

  -- Both implementations of the trait.
  unfoldable pub password_material : PasswordBackupKey → BackupKeyMaterial
  password_material k = record {
    derive_account_key_material =
        λ account_id. derive_hkdf k.bytes (account_key_label ++ account_id);
  }

  unfoldable pub mnemonic_material : MnemonicBackupKey → BackupKeyMaterial
  mnemonic_material k = record {
    derive_account_key_material =
        λ account_id. derive_hkdf k.bytes (account_key_label ++ account_id);
  }

  unfoldable pub from_password : Bytes → Bytes → Fallible PasswordBackupKey
  from_password password salt = if length password == 0 then err empty_password else do
    password_kdf ← or_fail (c.argon2id password salt) invalid_state
    root ← derive_hkdf password_kdf password_root_label
    ok (record { bytes = root })

  -- `random` is what the system's generator gives for the salt.
  unfoldable pub generate_password_key : Option Bytes → Bytes → Fallible (Bytes × PasswordBackupKey)
  generate_password_key random password =
      if length password == 0
      then err empty_password
      else do salt ← or_fail random io_error; key ← from_password password salt; ok (salt, key)

  unfoldable pub from_parsed_mnemonic : c.Mnemonic → Fallible MnemonicBackupKey
  from_parsed_mnemonic mnemonic = do
    key ← or_fail (c.hkdf (c.to_seed mnemonic) master_key_info) invalid_state
    ok (record { bytes = key })

  unfoldable pub from_mnemonic : Bytes → Fallible MnemonicBackupKey
  from_mnemonic phrase = do
    mnemonic ← or_fail (c.parse_mnemonic phrase) invalid_mnemonic
    from_parsed_mnemonic mnemonic

  -- `random n` is what the system's generator gives for `n` bytes of entropy.
  unfoldable pub generate_mnemonic_key :
      (ℕ → Option Bytes) → ℕ → Fallible (Bytes × MnemonicBackupKey)
  generate_mnemonic_key random word_count = do
    len ← or_fail (entropy_len word_count) invalid_argument
    entropy ← or_fail (random len) io_error
    mnemonic ← or_fail (c.from_entropy entropy) invalid_state
    key ← from_parsed_mnemonic mnemonic
    ok (c.phrase mnemonic, key)
