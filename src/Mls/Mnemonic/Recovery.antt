-- ===== src/Mls/Mnemonic/Recovery.antt =====
-- Which key is derived, and that its signatures are accepted.
use kchat_rust_sdk.Base.{
  ℕ, zero, suc, ◌+◌, ◌≤◌, ◌<◌, ◌≡◌, ◌↔◌, refl, sym, true, Option, none, some, Bytes, arith, length,
  ok, subst, inl, inr, >>=-eq-ok, or_fail, or_fail-eq-ok,
}
use native.Mathlib.Nat.{eq-or-lt_of_le}
use kchat_rust_sdk.Backup.Crypto.{Crypto, IsLawful}
use kchat_rust_sdk.Mls.Signatures.{Scheme, Signatures, IsLawfulScheme}
use kchat_rust_sdk.Mls.Mnemonic.{
  RecoveryKeyAlgorithm, ed25519, p256_ecdsa, RecoveryKeyPair, derivation_failed, invalid_mnemonic,
  master_key_info, ed25519_key_info, derive_p256, derive_from_master, derive_recovery_key_pair,
  round_info, key_pair, sign_recovery_message, verify_recovery_signature, export_private_key,
  verify_with,
}

module _ (c : Crypto) (s : Signatures) (master : Bytes) (pair : RecoveryKeyPair) where
  -- The round `n` gives the pair, and the rounds before it, from `counter` on, give what is no key.
  pub record IsFirst (counter n : ℕ) : Type 0 where
    pub bytes : c.hkdf master (round_info n) ≡ some pair.private_key
    pub signer : s.p256.SigningKey
    pub accepted : s.p256_from_slice pair.private_key ≡ some signer
    pub encoded : s.p256.to_public_key_der (s.p256.verifying_key signer) ≡ some pair.public_key
    pub rejected :
        (j : ℕ)
        → counter ≤ j
        → j < n
        → (k : Bytes) × (c.hkdf master (round_info j) ≡ some k) × (s.p256_from_slice k ≡ none)

module _ (c : Crypto) (s : Signatures) (master : Bytes) (pair : RecoveryKeyPair) where
  -- A round between `from` and `to` that is the first.
  abbrev pub Found : ℕ → ℕ → Type 0
  Found from to = (n : ℕ) × (from ≤ n) × (n < to) × IsFirst c s master pair from n

  -- What is known of the earlier rounds does not matter for the rest of the record.
  IsFirst-from :
      (from from' n : ℕ)
      → IsFirst c s master pair from n
      → ((j : ℕ)
          → from' ≤ j
          → j < n
          → (k : Bytes) × (c.hkdf master (round_info j) ≡ some k) × (s.p256_from_slice k ≡ none))
      → IsFirst c s master pair from' n
  IsFirst-from from from' n first rejected = record {
    bytes = first.bytes;
    signer = first.signer;
    accepted = first.accepted;
    encoded = first.encoded;
    rejected = rejected;
  }

  -- A round whose bytes are no key leaves the search to the later ones.
  Found-skip :
      (counter to : ℕ) (k : Bytes)
      → c.hkdf master (round_info counter) ≡ some k
      → s.p256_from_slice k ≡ none
      → Found (suc counter) to
      → Found counter to
  Found-skip counter to k derived refused (n, low, high, first) = (
    n,
    omega arith,
    high,
    IsFirst-from (suc counter) counter n first (λ j from below. elim (eq-or-lt_of_le from) [
      | inl same ↦ (k, subst (λ i. c.hkdf master (round_info i) ≡ some k) same derived, refused)
      | inr later ↦ first.rejected j later below
    ]),
  )

  Found-here :
      (rounds counter : ℕ) (k : Bytes) (signer : s.p256.SigningKey)
      → c.hkdf master (round_info counter) ≡ some k
      → s.p256_from_slice k ≡ some signer
      → key_pair s.p256 k signer ≡ ok pair
      → Found counter (counter + suc rounds)
  Found-here rounds counter k signer derived accepted made = (
    counter,
    omega arith,
    omega arith,
    record {
      bytes = ground arith;
      signer = signer;
      accepted = ground arith;
      encoded = ground arith;
      rejected = λ j from below. absurd (omega arith);
    },
  )

  -- The step of the search, by what P-256 says of the bytes.
  Found-round :
      (rounds counter : ℕ) (k : Bytes) (found : Option s.p256.SigningKey)
      → c.hkdf master (round_info counter) ≡ some k
      → s.p256_from_slice k ≡ found
      → derive_p256 c s master (suc rounds) counter ≡ ok pair
      → (derive_p256 c s master rounds (suc counter) ≡ ok pair
          → Found (suc counter) (suc counter + rounds))
      → Found counter (counter + suc rounds)
  unfolding derive_p256
  Found-round rounds counter k none derived refused h later =
      Found-skip counter (counter + suc rounds) k derived refused
        (subst (λ to. Found (suc counter) to) (omega arith) (later (ground arith)))
  Found-round rounds counter k (some signer) derived accepted h later =
      Found-here rounds counter k signer derived accepted (ground arith)

  derive_p256-Found :
      (rounds counter : ℕ)
      → derive_p256 c s master rounds counter ≡ ok pair
      → Found counter (counter + rounds)
  unfolding derive_p256
  derive_p256-Found zero counter h = cc
  derive_p256-Found (suc rounds) counter h =
      let (k, derived, _) =
        >>=-eq-ok (or_fail (c.hkdf master (round_info counter)) derivation_failed) _ h in
      Found-round rounds counter k (s.p256_from_slice k) (or_fail-eq-ok _ _ k derived) refl h
        (derive_p256-Found rounds (suc counter))

  IsFirst-suc :
      (counter n : ℕ) → IsFirst c s master pair counter n → IsFirst c s master pair (suc counter) n
  IsFirst-suc counter n first =
      IsFirst-from counter (suc counter) n first
        (λ j from below. first.rejected j (omega arith) below)

  Found-derive_p256 :
      (rounds counter n : ℕ)
      → counter ≤ n
      → n < counter + rounds
      → IsFirst c s master pair counter n
      → derive_p256 c s master rounds counter ≡ ok pair
  unfolding derive_p256
  Found-derive_p256 zero counter n low high first = absurd (omega arith)
  Found-derive_p256 (suc rounds) counter n low high first = elim (eq-or-lt_of_le low) [
    | inl same ↦
        let derived : c.hkdf master (round_info counter) ≡ some pair.private_key =
          subst (λ i. c.hkdf master (round_info i) ≡ some pair.private_key) (sym same)
            first.bytes in
        rw derived (rw first.accepted (rw first.encoded refl))
    | inr later ↦
        let (k, derived, refused) = first.rejected counter (omega arith) later in
        rw derived (
          rw refused (
            Found-derive_p256 rounds (suc counter) n later (omega arith)
              (IsFirst-suc counter n first)))
  ]

  -- A P-256 pair is derived exactly if a counter below 256 gives it: HKDF derives the pair's private
  -- key from the label and that counter, P-256 accepts these bytes and their public key has the
  -- pair's encoding, and the bytes of every smaller counter were derived and are refused by P-256.
  pub derive_from_master_iff : (derive_from_master c s master p256_ecdsa ≡ ok pair) ↔ Found 0 256
  unfolding derive_from_master
  derive_from_master_iff = (
    λ h. derive_p256-Found 256 0 h,
    λ found. Found-derive_p256 256 0 found.0 found.1 found.2 found.3,
  )

module _ (s : Scheme) (w : IsLawfulScheme s) where
  -- The signature of a key is accepted with the public key of its pair.
  verify_with-key_pair :
      (bytes message : Bytes) (signer : s.SigningKey) (pair : RecoveryKeyPair)
      → key_pair s bytes signer ≡ ok pair
      → verify_with s pair.public_key message (s.signature_bytes (s.sign signer message)) ≡ ok true
  verify_with-key_pair bytes message signer pair h =
      let encoded : s.to_public_key_der (s.verifying_key signer) ≡ some pair.public_key =
        ground arith in
      let known = w.parse_key (s.verifying_key signer) encoded in
      ground (
        arith,
        known,
        w.parse-signature_bytes (s.sign signer message),
        w.verify-sign signer message,
      )

-- The master key from which a pair was derived.
derive_from_master-derive_recovery_key_pair :
    (c : Crypto) (s : Signatures) (phrase : Bytes) (algorithm : RecoveryKeyAlgorithm)
    (pair : RecoveryKeyPair)
    → derive_recovery_key_pair c s phrase algorithm ≡ ok pair
    → (master : Bytes) × (derive_from_master c s master algorithm ≡ ok pair)
unfolding derive_recovery_key_pair
derive_from_master-derive_recovery_key_pair c s phrase algorithm pair h =
    let (mnemonic, _, rest) = >>=-eq-ok (or_fail (c.parse_mnemonic phrase) invalid_mnemonic) _ h in
    let (master, _, made) =
      >>=-eq-ok (or_fail (c.hkdf (c.to_seed mnemonic) master_key_info) derivation_failed) _ rest in
    (master, made)

module _ (c : Crypto) (s : Signatures) (w : IsLawful c) (ed : IsLawfulScheme s.ed25519)
    (ec : IsLawfulScheme s.p256) where
  -- What a pair's key signs is accepted.
  abbrev IsAccepted : RecoveryKeyAlgorithm → RecoveryKeyPair → Bytes → Type 0
  IsAccepted algorithm pair message =
      (signature : Bytes) × (sign_recovery_message s algorithm (export_private_key pair) message
        ≡ ok signature)
      × (verify_recovery_signature s algorithm pair.public_key message signature ≡ ok true)

  sign-derive_from_master :
      (master message : Bytes) (algorithm : RecoveryKeyAlgorithm) (pair : RecoveryKeyPair)
      → derive_from_master c s master algorithm ≡ ok pair
      → IsAccepted algorithm pair message
  unfolding derive_from_master sign_recovery_message verify_recovery_signature
  sign-derive_from_master master message ed25519 pair h =
      let (key, derived, made) =
        >>=-eq-ok (or_fail (c.hkdf master ed25519_key_info) derivation_failed) _ h in
      let long : length key ≡ 32 =
        w.hkdf_length master ed25519_key_info (or_fail-eq-ok _ _ key derived) in
      let same : pair.private_key ≡ key = ground arith in
      (
        s.ed25519.signature_bytes (s.ed25519.sign (s.ed25519_from_bytes key) message),
        ground (arith, long),
        verify_with-key_pair s.ed25519 ed key message (s.ed25519_from_bytes key) pair made,
      )
  sign-derive_from_master master message p256_ecdsa pair h =
      let (n, _, _, first) = derive_p256-Found c s master pair 256 0 h in
      let long : length pair.private_key ≡ 32 = w.hkdf_length master (round_info n) first.bytes in
      let made : key_pair s.p256 pair.private_key first.signer ≡ ok pair = rw first.encoded refl in
      (
        s.p256.signature_bytes (s.p256.sign first.signer message),
        ground (arith, long, first.accepted),
        verify_with-key_pair s.p256 ec pair.private_key message first.signer pair made,
      )

  -- Given lawful libraries (HKDF gives 32 bytes, encoded keys and signatures are decoded, and a key's
  -- own signature is valid): with the exported private key of a pair that was derived from a phrase,
  -- under either algorithm, every message can be signed, and the signature is accepted with the
  -- pair's public key.
  pub sign-derive_recovery_key_pair :
      (phrase message : Bytes) (algorithm : RecoveryKeyAlgorithm) (pair : RecoveryKeyPair)
      → derive_recovery_key_pair c s phrase algorithm ≡ ok pair
      → (signature : Bytes) × (sign_recovery_message s algorithm (export_private_key pair) message
          ≡ ok signature)
        × (verify_recovery_signature s algorithm pair.public_key message signature ≡ ok true)
  sign-derive_recovery_key_pair phrase message algorithm pair h =
      let (master, made) =
        derive_from_master-derive_recovery_key_pair c s phrase algorithm pair h in
      sign-derive_from_master master message algorithm pair made
