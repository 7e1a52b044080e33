-- ===== src/Examples/Toys.antt =====
-- Small stand-ins for the libraries and the callers of crates/kchat-backup.
use kchat_rust_sdk.Base.{
  ℕ, ◌+◌, ◌≡◌, refl, false, Option, none, some, List, [], ◌∷◌, ◌++◌, Bytes, arith, length, take,
  drop, replicate, bytes_eq, bytes_eq_refl, eq_of_bytes_eq, if◌then◌else◌, ok, take-append-drop,
}
use kchat_rust_sdk.Backup.Crypto.{Crypto, IsLawful}
use kchat_rust_sdk.Backup.Object.Io.{ByteSource, ByteSink}
use kchat_rust_sdk.Backup.Object.Stream.{StreamCipher, Compressor}
use kchat_rust_sdk.Backup.Object.Frames.Layout.{IsRecorder}

abbrev pub tag : Bytes
tag = replicate 16 9

abbrev pub toy_decrypt : Bytes → Option Bytes
toy_decrypt e = if bytes_eq (take 16 e) tag then some (drop 16 e) else none

-- A cipher that puts a constant tag before the message.
abbrev pub crypto : Crypto
crypto = record {
  hkdf = λ k i. some (replicate 32 7);
  argon2id = λ p s. some (replicate 32 1);
  aead_encrypt = λ k n a m. some (tag ++ m);
  aead_decrypt = λ k n a e. toy_decrypt e;
  Mnemonic = Bytes;
  from_entropy = λ e. some e;
  parse_mnemonic = λ p. some p;
  phrase = λ m. m;
  to_seed = λ m. m;
  parse_uuid = λ v. some v;
}

toy_hkdf_length : (o : Bytes) → some (replicate 32 7) ≡ some o → length o ≡ 32
toy_hkdf_length o e = ground arith

toy_encrypt_length : (m e : Bytes) → some (tag ++ m) ≡ some e → length e ≡ length m + 16
toy_encrypt_length m e h = ground arith

toy_decrypt_encrypt : (m e : Bytes) → some (tag ++ m) ≡ some e → toy_decrypt e ≡ some m
unfolding bytes_eq
toy_decrypt_encrypt m e h = ground (arith, bytes_eq_refl tag)

toy_encrypt_decrypt : (m e : Bytes) → toy_decrypt e ≡ some m → some (tag ++ m) ≡ some e
toy_encrypt_decrypt m e h = ground (arith, eq_of_bytes_eq (take 16 e) tag, take-append-drop 16 e)

pub crypto-IsLawful : IsLawful crypto
crypto-IsLawful = record {
  hkdf_length = λ k i {o} e. toy_hkdf_length o e;
  encrypt_length = λ k n a m {e} h. toy_encrypt_length m e h;
  decrypt_encrypt = λ k n a m e h. toy_decrypt_encrypt m e h;
  encrypt_decrypt = λ k n a m e h. toy_encrypt_decrypt m e h;
  parse-phrase = λ m. refl;
}

-- A cipher that counts its blocks, and a digest that is the message.
abbrev pub cipher : StreamCipher
cipher = record {
  Encryptor = ℕ;
  Decryptor = ℕ;
  new_encryptor = λ k n. 0;
  new_decryptor = λ k n. 0;
  encrypt_next = λ e a m. some (tag ++ m, e + 1);
  encrypt_last = λ e a m. some (tag ++ m);
  decrypt_next = λ e a m. elim (toy_decrypt m) [ none ↦ none | some x ↦ some (x, e + 1) ];
  decrypt_last = λ e a m. toy_decrypt m;
  sha256 = λ m. m;
}

-- A compressor that keeps what it is given, and writes it at the end after a byte of its own.
abbrev pub compressor : Compressor
compressor = record {
  Encoder = Bytes;
  new = some [];
  write_all = λ z x. record { pieces = []; next = some (z ++ x) };
  finish = λ z. record { pieces = (40 ∷ []) ∷ z ∷ []; next = some tt };
}

-- A source that gives the chunks of a list, and is never cancelled.
abbrev pub chunk_source : ByteSource (List Bytes)
chunk_source = record {
  read_chunk = λ n s. elim s [ [] ↦ (ok [], []) | x ∷ xs ↦ (ok x, xs) ];
  is_cancelled = λ s. (false, s);
}

-- A sink that keeps what it is given.
abbrev pub recorder : ByteSink Bytes
recorder = record { write_chunk = λ x t. (ok tt, t ++ x) }

pub recorder-IsRecorder : IsRecorder recorder (λ t. t)
recorder-IsRecorder = record { records = λ x t h. refl }
