-- ===== src/Backup/Crypto.antt =====
-- The cryptographic libraries that crates/kchat-backup calls (hkdf, argon2, bip39, chacha20poly1305,
-- uuid): their functions as the fields of one record, and what their documentation promises.
-- `none` is a library error, which the code maps to an error code of its own.
use kchat_rust_sdk.Base.{◌+◌, ◌≡◌, Option, some, Bytes, length}

pub record Crypto : Type 1 where
  -- HKDF-SHA256 with no salt, expanded to 32 bytes: input key material, info.
  pub hkdf : Bytes → Bytes → Option Bytes
  -- Argon2id with the crate's fixed parameters: password, salt.
  pub argon2id : Bytes → Bytes → Option Bytes
  -- XChaCha20-Poly1305: key, nonce, associated data, message.
  pub aead_encrypt : Bytes → Bytes → Bytes → Bytes → Option Bytes
  pub aead_decrypt : Bytes → Bytes → Bytes → Bytes → Option Bytes
  -- BIP39 over the English word list.
  pub Mnemonic : Type 0
  pub from_entropy : Bytes → Option Mnemonic
  pub parse_mnemonic : Bytes → Option Mnemonic
  pub phrase : Mnemonic → Bytes
  pub to_seed : Mnemonic → Bytes
  pub parse_uuid : Bytes → Option Bytes

-- A phrase parses to the mnemonic that it spells. A tag has 16 bytes; the cipher is deterministic, so what it opens is what it would seal.
pub record IsLawful (c : Crypto) : Type 0 where
  pub hkdf_length : (k i : Bytes) {o : Bytes} → c.hkdf k i ≡ some o → length o ≡ 32
  pub encrypt_length :
      (k n a m : Bytes) {e : Bytes} → c.aead_encrypt k n a m ≡ some e → length e ≡ length m + 16
  pub decrypt_encrypt :
      (k n a m e : Bytes) → c.aead_encrypt k n a m ≡ some e → c.aead_decrypt k n a e ≡ some m
  pub encrypt_decrypt :
      (k n a m e : Bytes) → c.aead_decrypt k n a e ≡ some m → c.aead_encrypt k n a m ≡ some e
  pub parse-phrase : (m : c.Mnemonic) → c.parse_mnemonic (c.phrase m) ≡ some m
