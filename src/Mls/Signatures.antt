-- ===== src/Mls/Signatures.antt =====
-- The signature libraries that crates/kchat-mls/src/mnemonic.rs calls (ed25519_dalek, p256): their
-- functions as the fields of records, and what their documentation promises.
use kchat_rust_sdk.Base.{◌≡◌, Bool, true, Option, some, Bytes}

pub record Scheme : Type 1 where
  pub SigningKey : Type 0
  pub VerifyingKey : Type 0
  pub Signature : Type 0
  pub verifying_key : SigningKey → VerifyingKey
  -- X.509 SubjectPublicKeyInfo
  pub to_public_key_der : VerifyingKey → Option Bytes
  pub from_public_key_der : Bytes → Option VerifyingKey
  pub sign : SigningKey → Bytes → Signature
  -- `to_bytes` and `from_slice` of Ed25519, `to_der` and `from_der` of P-256
  pub signature_bytes : Signature → Bytes
  pub parse_signature : Bytes → Option Signature
  -- `verify_strict` of Ed25519, `verify` of P-256
  pub verify : VerifyingKey → Bytes → Signature → Bool

pub record Signatures : Type 1 where
  pub ed25519 : Scheme
  -- of the 32 bytes of a seed, each of which is a key
  pub ed25519_from_bytes : Bytes → ed25519.SigningKey
  pub p256 : Scheme
  pub p256_from_slice : Bytes → Option p256.SigningKey

-- What was encoded is decoded, and a key's own signature is valid.
pub record IsLawfulScheme (s : Scheme) : Type 0 where
  pub parse_key :
      (k : s.VerifyingKey) {der : Bytes}
      → s.to_public_key_der k ≡ some der
      → s.from_public_key_der der ≡ some k
  pub parse-signature_bytes : (g : s.Signature) → s.parse_signature (s.signature_bytes g) ≡ some g
  pub verify-sign :
      (k : s.SigningKey) (m : Bytes) → s.verify (s.verifying_key k) m (s.sign k m) ≡ true
