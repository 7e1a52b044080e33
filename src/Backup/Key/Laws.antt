-- ===== src/Backup/Key/Laws.antt =====
-- Key generation, import and export.
use kchat_rust_sdk.Base.{ℕ, ◌≡◌, Option, arith, Bytes, ok}
use kchat_rust_sdk.Backup.Crypto.{Crypto, IsLawful}
use kchat_rust_sdk.Backup.Key.{
  PasswordBackupKey, MnemonicBackupKey, import_password_key, export_password_key,
  import_mnemonic_key, export_mnemonic_key, from_password, from_mnemonic, from_parsed_mnemonic,
  generate_password_key, generate_mnemonic_key, derive_hkdf,
}

module _ (c : Crypto) (w : IsLawful c) where
  pub import-export-from_password :
      (password salt : Bytes) (k : PasswordBackupKey)
      → from_password c password salt ≡ ok k
      → import_password_key (export_password_key k) ≡ ok k
  unfolding from_password derive_hkdf import_password_key export_password_key
  import-export-from_password password salt k h = grind (arith, w.hkdf_length)

  pub import-export-from_mnemonic :
      (phrase : Bytes) (k : MnemonicBackupKey)
      → from_mnemonic c phrase ≡ ok k
      → import_mnemonic_key (export_mnemonic_key k) ≡ ok k
  unfolding from_mnemonic from_parsed_mnemonic import_mnemonic_key export_mnemonic_key
  import-export-from_mnemonic phrase k h = grind (arith, w.hkdf_length)

  -- Given lawful cryptography (derived keys have 32 bytes): a generated password key is the one
  -- that the password and the returned salt give, and it survives an export and an import.
  pub generate_password_key_recovers :
      (random : Option Bytes) (password salt : Bytes) (k : PasswordBackupKey)
      → generate_password_key c random password ≡ ok (salt, k)
      → (from_password c password salt ≡ ok k)
        × (import_password_key (export_password_key k) ≡ ok k)
  unfolding generate_password_key
  generate_password_key_recovers random password salt k h =
      let recovered : from_password c password salt ≡ ok k = ground arith in
      (recovered, import-export-from_password password salt k recovered)

  -- Given lawful cryptography (a phrase parses to the mnemonic that it spells, and derived keys
  -- have 32 bytes): a generated mnemonic key is the one that the returned phrase gives, whatever
  -- the word count, and it survives an export and an import.
  pub generate_mnemonic_key_recovers :
      (random : ℕ → Option Bytes) (word_count : ℕ) (phrase : Bytes) (k : MnemonicBackupKey)
      → generate_mnemonic_key c random word_count ≡ ok (phrase, k)
      → (from_mnemonic c phrase ≡ ok k) × (import_mnemonic_key (export_mnemonic_key k) ≡ ok k)
  unfolding generate_mnemonic_key from_mnemonic
  generate_mnemonic_key_recovers random word_count phrase k h =
      let recovered : from_mnemonic c phrase ≡ ok k = grind (arith, w.parse-phrase) in
      (recovered, import-export-from_mnemonic phrase k recovered)
