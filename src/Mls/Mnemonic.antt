-- ===== src/Mls/Mnemonic.antt =====
-- crates/kchat-mls/src/mnemonic.rs: recovery mnemonics, the key pairs derived from them, and their
-- signatures. Zeroisation and the redacted debug output are left out.
pub mod Recovery
use kchat_rust_sdk.Base.{
  ℕ, zero, suc, ◌+◌, Option, none, some, Bool, false, [], ◌∷◌, ◌++◌, Bytes, codes, length, ◌==◌,
  if◌then◌else◌, Result, ok, err, ◌>>=◌, or_fail,
}
use kchat_rust_sdk.Backup.Crypto.{Crypto}
use kchat_rust_sdk.Mls.Signatures.{Scheme, Signatures}

abbrev pub master_key_info : Bytes
master_key_info = codes "KCHAT_RECOVERY_V1_MASTER"

abbrev pub ed25519_key_info : Bytes
ed25519_key_info = codes "KCHAT_RECOVERY_V1_ED25519"

abbrev pub p256_ecdsa_key_info : Bytes
p256_ecdsa_key_info = codes "KCHAT_RECOVERY_V1_P256_ECDSA"

pub data RecoveryKeyAlgorithm : Type 0 where
  ed25519 p256_ecdsa : RecoveryKeyAlgorithm

pub data MnemonicError : Type 0 where
  invalid_word_count invalid_mnemonic randomness_unavailable derivation_failed : MnemonicError

pub data RecoverySignatureError : Type 0 where
  invalid_private_key invalid_public_key : RecoverySignatureError

pub record RecoveryKeyPair : Type 0 where
  pub private_key : Bytes
  pub public_key : Bytes

abbrev pub export_private_key : RecoveryKeyPair → Bytes
export_private_key pair = pair.private_key

abbrev pub entropy_len : ℕ → Result MnemonicError ℕ
entropy_len word_count =
    if word_count == 12
    then ok 16
    else if word_count == 15
    then ok 20
    else if word_count == 18
    then ok 24
    else if word_count == 21
    then ok 28
    else if word_count == 24
    then ok 32
    else err invalid_word_count

-- The info of a round: the label, and from the second round on the counter.
abbrev pub round_info : ℕ → Bytes
round_info counter =
    if counter == 0 then p256_ecdsa_key_info else p256_ecdsa_key_info ++ counter ∷ []

-- A scheme's key in a pair, with the public key as DER.
abbrev pub key_pair : (s : Scheme) → Bytes → s.SigningKey → Result MnemonicError RecoveryKeyPair
key_pair s private_key signer = do
  der ← or_fail (s.to_public_key_der (s.verifying_key signer)) derivation_failed
  ok (record { private_key = private_key; public_key = der })

module _ (c : Crypto) (s : Signatures) where
  unfoldable pub generate_recovery_mnemonic : (ℕ → Option Bytes) → ℕ → Result MnemonicError Bytes
  generate_recovery_mnemonic getrandom word_count = do
    len ← entropy_len word_count
    entropy ← or_fail (getrandom len) randomness_unavailable
    mnemonic ← or_fail (c.from_entropy entropy) derivation_failed
    ok (c.phrase mnemonic)

  -- The loop over the counters, from `counter` on for `rounds` rounds.
  unfoldable pub derive_p256 : Bytes → ℕ → ℕ → Result MnemonicError RecoveryKeyPair
  derive_p256 master zero counter = err derivation_failed
  derive_p256 master (suc rounds) counter = do
    let rest = derive_p256 master rounds (suc counter)
    private_key ← or_fail (c.hkdf master (round_info counter)) derivation_failed
    elim (s.p256_from_slice private_key) [
      | none ↦ rest
      | some signer ↦ key_pair s.p256 private_key signer
    ]

  unfoldable pub derive_from_master :
      Bytes → RecoveryKeyAlgorithm → Result MnemonicError RecoveryKeyPair
  derive_from_master master ed25519 = do
    private_key ← or_fail (c.hkdf master ed25519_key_info) derivation_failed
    key_pair s.ed25519 private_key (s.ed25519_from_bytes private_key)
  derive_from_master master p256_ecdsa = derive_p256 master 256 0

  unfoldable pub derive_recovery_key_pair :
      Bytes → RecoveryKeyAlgorithm → Result MnemonicError RecoveryKeyPair
  derive_recovery_key_pair phrase algorithm = do
    mnemonic ← or_fail (c.parse_mnemonic phrase) invalid_mnemonic
    master ← or_fail (c.hkdf (c.to_seed mnemonic) master_key_info) derivation_failed
    derive_from_master master algorithm

-- `try_into` to an array of 32 bytes, and the test of the length
abbrev pub private_key_array : Bytes → Result RecoverySignatureError Bytes
private_key_array key = if length key == 32 then ok key else err invalid_private_key

abbrev pub verify_with : (s : Scheme) → Bytes → Bytes → Bytes → Result RecoverySignatureError Bool
verify_with s public_key message signature = do
  verifier ← or_fail (s.from_public_key_der public_key) invalid_public_key
  elim (s.parse_signature signature) [
    | none ↦ ok false
    | some parsed ↦ ok (s.verify verifier message parsed)
  ]

module _ (s : Signatures) where
  unfoldable pub sign_recovery_message :
      RecoveryKeyAlgorithm → Bytes → Bytes → Result RecoverySignatureError Bytes
  sign_recovery_message ed25519 private_key message = do
    key ← private_key_array private_key
    let scheme = s.ed25519
    ok (scheme.signature_bytes (scheme.sign (s.ed25519_from_bytes key) message))
  sign_recovery_message p256_ecdsa private_key message = do
    key ← private_key_array private_key
    signer ← or_fail (s.p256_from_slice key) invalid_private_key
    let scheme = s.p256
    ok (scheme.signature_bytes (scheme.sign signer message))

  unfoldable pub verify_recovery_signature :
      RecoveryKeyAlgorithm → Bytes → Bytes → Bytes → Result RecoverySignatureError Bool
  verify_recovery_signature ed25519 public_key message signature =
      verify_with s.ed25519 public_key message signature
  verify_recovery_signature p256_ecdsa public_key message signature =
      verify_with s.p256 public_key message signature
