-- ===== src/Backup/Descriptor/Header.antt =====
-- The header of a descriptor: `DescriptorHeaderV1` of crates/kchat-backup/src/descriptor.rs.
use kchat_rust_sdk.Base.{
  ℕ, ◌+◌, ◌∷◌, ◌++◌, ◌&&◌, not, Bytes, codes, bytes_eq, u16_be, take, drop, slice, get_or, length,
  replicate, ◌==◌, if◌then◌else◌, ok, err, ◌>>◌,
}
use kchat_rust_sdk.Backup.Error.{Fallible, invalid_argument, unsupported_format}

abbrev pub magic : Bytes
magic = codes "KCBD"

abbrev pub format_version : ℕ
format_version = 1

abbrev pub mnemonic_mode : ℕ
mnemonic_mode = 1

abbrev pub password_mode : ℕ
password_mode = 2

abbrev pub mnemonic_kdf_profile : ℕ
mnemonic_kdf_profile = 0

abbrev pub password_kdf_profile : ℕ
password_kdf_profile = 1

abbrev pub header_bytes : ℕ
header_bytes = 26

abbrev pub nonce_bytes : ℕ
nonce_bytes = 24

abbrev pub plaintext_bytes : ℕ
plaintext_bytes = 44

abbrev pub serialized_bytes : ℕ
serialized_bytes = header_bytes + nonce_bytes + plaintext_bytes + 16

pub data DescriptorBackupMode : Type 0 where
  mnemonic_backup password_backup : DescriptorBackupMode

pub record DescriptorHeader : Type 0 where
  pub bytes : Bytes

unfoldable pub mnemonic : DescriptorHeader
mnemonic = record { bytes = magic ++ (0 ∷ 1 ∷ mnemonic_mode ∷ replicate 19 0) }

unfoldable pub password : Bytes → DescriptorHeader
unfolding mnemonic
password salt = record {
  bytes = take 6 mnemonic.bytes ++ (password_mode ∷ 0 ∷ (u16_be password_kdf_profile ++ salt));
}

unfoldable pub validate : DescriptorHeader → Fallible (Unit {0})
validate header =
    let bytes = header.bytes in
    if not (bytes_eq (take 4 bytes) magic && bytes_eq (slice 4 2 bytes) (u16_be format_version))
    then err unsupported_format
    else if not (get_or bytes 7 0 == 0)
    then err unsupported_format
    else if get_or bytes 6 0 == mnemonic_mode
        && bytes_eq (slice 8 2 bytes) (u16_be mnemonic_kdf_profile)
        && bytes_eq (drop 10 bytes) (replicate 16 0)
    then ok tt
    else if get_or bytes 6 0 == password_mode
        && bytes_eq (slice 8 2 bytes) (u16_be password_kdf_profile)
    then ok tt
    else err unsupported_format

unfoldable pub parse : Bytes → Fallible DescriptorHeader
parse serialized = if not (length serialized == serialized_bytes) then err invalid_argument else do
  let header : DescriptorHeader = record { bytes = take header_bytes serialized }
  validate header
  ok header

unfoldable pub backup_mode : DescriptorHeader → DescriptorBackupMode
backup_mode header =
    if get_or header.bytes 6 0 == mnemonic_mode then mnemonic_backup else password_backup

unfoldable pub salt : DescriptorHeader → Bytes
salt header = slice 10 16 header.bytes
