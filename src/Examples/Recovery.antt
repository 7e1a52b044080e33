-- ===== src/Examples/Recovery.antt =====
-- Signature libraries in small, and what is proved of recovery keys applied to them.
use kchat_rust_sdk.Base.{
  ◌≡◌, ◌↔◌, refl, true, none, some, [], ◌∷◌, ◌++◌, Bytes, arith, codes, length, take, replicate,
  get_or, bytes_eq, bytes_eq_refl, ◌==◌, if◌then◌else◌, ok, length-take, length-append,
}
use kchat_rust_sdk.Backup.Crypto.{Crypto, IsLawful}
use kchat_rust_sdk.Mls.Signatures.{Scheme, Signatures, IsLawfulScheme}
use kchat_rust_sdk.Mls.Mnemonic.{
  p256_ecdsa, p256_ecdsa_key_info, RecoveryKeyPair, derive_p256, derive_from_master,
  derive_recovery_key_pair, sign_recovery_message, verify_recovery_signature, export_private_key,
}
use kchat_rust_sdk.Mls.Mnemonic.Recovery.{
  Found, derive_from_master_iff, sign-derive_recovery_key_pair,
}
use kchat_rust_sdk.Examples.Toys.{crypto, crypto-IsLawful}

-- HKDF that pads or cuts the info to 32 bytes.
abbrev expanding : Crypto
expanding = record crypto { hkdf = λ k i. some (take 32 (i ++ replicate 32 0)) }

expanding_length : (i o : Bytes) → some (take 32 (i ++ replicate 32 0)) ≡ some o → length o ≡ 32
expanding_length i o e =
    ground (arith, length-take 32 (i ++ replicate 32 0), length-append i (replicate 32 0))

expanding-IsLawful : IsLawful expanding
expanding-IsLawful = record {
  hkdf_length = λ k i {o} e. expanding_length i o e;
  encrypt_length = crypto-IsLawful.encrypt_length;
  decrypt_encrypt = crypto-IsLawful.decrypt_encrypt;
  encrypt_decrypt = crypto-IsLawful.encrypt_decrypt;
  parse-phrase = crypto-IsLawful.parse-phrase;
}

-- A public key is the private one, and a signature puts it before the message.
abbrev scheme : Scheme
scheme = record {
  SigningKey = Bytes;
  VerifyingKey = Bytes;
  Signature = Bytes;
  verifying_key = λ k. k;
  to_public_key_der = λ k. some (48 ∷ k);
  from_public_key_der = λ der. elim der [ [] ↦ none | (x ∷ k) ↦ some k ];
  sign = λ k m. k ++ m;
  signature_bytes = λ g. g;
  parse_signature = λ b. some b;
  verify = λ k m g. bytes_eq (k ++ m) g;
}

parse_der : (k der : Bytes) → some (48 ∷ k) ≡ some der → scheme.from_public_key_der der ≡ some k
parse_der k der e = ground arith

scheme-IsLawful : IsLawfulScheme scheme
scheme-IsLawful = record {
  parse_key = λ k {der} e. parse_der k der e;
  parse-signature_bytes = λ g. refl;
  verify-sign = λ k m. bytes_eq_refl (k ++ m);
}

-- P-256 that refuses a key whose byte after the label is 0.
abbrev signatures : Signatures
signatures = record {
  ed25519 = scheme;
  ed25519_from_bytes = λ k. k;
  p256 = scheme;
  p256_from_slice = λ k. if get_or k 28 0 == 0 then none else some k;
}

-- The key of the counter 1.
abbrev second_key : Bytes
second_key = p256_ecdsa_key_info ++ 1 ∷ 0 ∷ 0 ∷ 0 ∷ []

abbrev second_pair : RecoveryKeyPair
second_pair = record { private_key = second_key; public_key = 48 ∷ second_key }

derives : derive_recovery_key_pair expanding signatures (codes "phrase") p256_ecdsa ≡ ok second_pair
unfolding derive_recovery_key_pair derive_from_master derive_p256
derives = refl

derive_from_master_iff_example :
    (derive_from_master expanding signatures second_key p256_ecdsa ≡ ok second_pair)
    ↔ Found expanding signatures second_key second_pair 0 256
derive_from_master_iff_example = derive_from_master_iff expanding signatures second_key second_pair

sign-derive_recovery_key_pair_example :
    (signature : Bytes) × (sign_recovery_message signatures p256_ecdsa
        (export_private_key second_pair)
        (codes "hello")
      ≡ ok signature)
    × (verify_recovery_signature signatures p256_ecdsa second_pair.public_key
          (codes "hello")
          signature
        ≡ ok true)
sign-derive_recovery_key_pair_example =
    sign-derive_recovery_key_pair expanding signatures expanding-IsLawful scheme-IsLawful
      scheme-IsLawful (codes "phrase") (codes "hello") p256_ecdsa second_pair derives
