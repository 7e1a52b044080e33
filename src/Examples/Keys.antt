-- ===== src/Examples/Keys.antt =====
-- Keys, contexts and descriptors.
use kchat_rust_sdk.Base.{
  ℕ, ◌≡◌, ◌≢◌, ◌↔◌, ◌⊎◌, refl, some, ◌++◌, Bytes, codes, arith, length, slice, replicate, bytes_eq,
  ok, ◌>>=◌, u16_be,
}
use kchat_rust_sdk.Backup.Key.{
  BackupKeyMaterial, PasswordBackupKey, MnemonicBackupKey, password_material, derive_hkdf,
  derive_account_key, derive_backup_id, derive_object, derive_descriptor, from_password,
  from_parsed_mnemonic, generate_password_key, generate_mnemonic_key, import_password_key,
  export_password_key,
}
use kchat_rust_sdk.Backup.Key.Laws.{generate_password_key_recovers}
use kchat_rust_sdk.Backup.Context.{
  BackupAccountId, BackupId, BackupChunkId, BackupObjectContext, canonical_context, derive_id,
  new_context,
}
use kchat_rust_sdk.Backup.Context.Binding.{new_context-eq-ok}
use kchat_rust_sdk.Backup.Descriptor.{
  mnemonic, password, validate, parse, validate_plaintext, descriptor_plaintext,
  derive_descriptor_key, seal_descriptor, open_descriptor,
}
use kchat_rust_sdk.Backup.Descriptor.Validity.{validate-eq-ok_iff}
use kchat_rust_sdk.Backup.Descriptor.RoundTrip.{
  open_descriptor-seal_descriptor, seal_descriptor-open_descriptor,
}
use kchat_rust_sdk.Examples.Toys.{crypto, crypto-IsLawful, tag}

abbrev pub derived : Bytes
derived = replicate 32 7

abbrev pub salt_ : Bytes
salt_ = replicate 16 5

abbrev pub password_key : PasswordBackupKey
password_key = record { bytes = derived }

abbrev pub mnemonic_key : MnemonicBackupKey
mnemonic_key = record { bytes = derived }

generated_password :
    generate_password_key crypto (some salt_) (codes "pw") ≡ ok (salt_, password_key)
unfolding generate_password_key from_password derive_hkdf
generated_password = refl

generate_password_key_recovers_example :
    (from_password crypto (codes "pw") salt_ ≡ ok password_key)
    × (import_password_key (export_password_key password_key) ≡ ok password_key)
generate_password_key_recovers_example =
    generate_password_key_recovers crypto crypto-IsLawful (some salt_) (codes "pw") salt_
      password_key generated_password

generated_mnemonic :
    generate_mnemonic_key crypto (λ n. some (replicate n 3)) 12 ≡ ok (replicate 16 3, mnemonic_key)
unfolding generate_mnemonic_key from_parsed_mnemonic
generated_mnemonic = refl

abbrev pub master : BackupKeyMaterial
unfolding password_material derive_hkdf
master = password_material crypto password_key

abbrev pub account : BackupAccountId
account = record { bytes = replicate 16 2 }

abbrev pub backup : BackupId
backup = record { bytes = derived }

abbrev pub other_backup : BackupId
other_backup = record { bytes = replicate 32 8 }

abbrev pub chunk_id : BackupChunkId
chunk_id = record { bytes = replicate 32 4 }

abbrev pub other_chunk_id : BackupChunkId
other_chunk_id = record { bytes = replicate 32 6 }

abbrev pub context_of : BackupChunkId → BackupObjectContext
context_of chunk = record {
  canonical_bytes = canonical_context 1 backup chunk;
  object_key = record { bytes = derived };
}

derived_id : derive_id crypto master account ≡ ok backup
unfolding derive_id derive_account_key derive_backup_id derive_hkdf password_material
derived_id = refl

made : (c : BackupChunkId) → new_context crypto master account backup 1 c ≡ ok (context_of c)
unfolding new_context derive_id derive_account_key derive_backup_id derive_object derive_hkdf
    bytes_eq password_material
made c = refl

new_context-eq-ok_example :
    (◌≡◌ {A = ℕ} 1 1)
    × (derive_id crypto master account ≡ ok backup)
    × ((context_of chunk_id).canonical_bytes ≡ canonical_context 1 backup chunk_id)
    × ((derive_account_key crypto master account.bytes >>= λ a.
          derive_object crypto a (context_of chunk_id).canonical_bytes)
        ≡ ok (context_of chunk_id).object_key)
new_context-eq-ok_example =
    new_context-eq-ok crypto master account 1 backup chunk_id (context_of chunk_id) (made chunk_id)

other_backup-ne : other_backup ≢ backup
other_backup-ne e = ground arith

validate-eq-ok_iff_example : (validate (password salt_) ≡ ok tt) ↔ (
    (password salt_ ≡ mnemonic) ⊎ ((s : Bytes) × (length s ≡ 16) × (password salt_ ≡ password s)))
unfolding password mnemonic u16_be
validate-eq-ok_iff_example = validate-eq-ok_iff (password salt_) refl

abbrev pub sealed_example : Bytes
sealed_example = (password salt_).bytes ++ (replicate 24 1 ++ (tag ++ descriptor_plaintext backup))

sealed :
    seal_descriptor crypto master account (some (replicate 24 1)) (password salt_)
    ≡ ok sealed_example
unfolding seal_descriptor validate password mnemonic u16_be bytes_eq derive_id derive_account_key
    derive_backup_id derive_hkdf password_material derive_descriptor_key derive_descriptor
sealed = refl

opened : open_descriptor crypto master account sealed_example ≡ ok (password salt_, backup)
unfolding open_descriptor parse validate password mnemonic u16_be bytes_eq derive_id
    derive_account_key derive_backup_id derive_hkdf password_material derive_descriptor_key
    derive_descriptor descriptor_plaintext validate_plaintext
opened = refl

nonce_length : length {A = ℕ} (replicate 24 1) ≡ 24
nonce_length = refl

salted_length : length (password salt_).bytes ≡ 26
unfolding password mnemonic u16_be
salted_length = refl

open_descriptor-seal_descriptor_example :
    (length sealed_example ≡ 110)
    × ((i : BackupId) × (derive_id crypto master account ≡ ok i)
        × (open_descriptor crypto master account sealed_example ≡ ok (password salt_, i)))
open_descriptor-seal_descriptor_example =
    open_descriptor-seal_descriptor crypto crypto-IsLawful master account (replicate 24 1)
      (password salt_) sealed_example nonce_length salted_length sealed

seal_descriptor-open_descriptor_example :
    seal_descriptor crypto master account (some (slice 26 24 sealed_example)) (password salt_)
    ≡ ok sealed_example
seal_descriptor-open_descriptor_example =
    seal_descriptor-open_descriptor crypto crypto-IsLawful master account sealed_example
      (password salt_) backup opened
