-- ===== src/Backup/Object/Stream.antt =====
-- The streaming libraries under crates/kchat-backup/src/object (aead_stream, sha2, zstd): their
-- functions as the fields of records. Their states are types of the library's own.
use kchat_rust_sdk.Base.{ℕ, ◌≤◌, ◌≡◌, Option, some, List, Bytes, length}

-- STREAM-BE32 over XChaCha20-Poly1305, and SHA-256. `none` is a library error. A `next` call changes
-- the state, a `last` call consumes it.
pub record StreamCipher : Type 1 where
  pub Encryptor : Type 0
  pub Decryptor : Type 0
  pub new_encryptor : Bytes → Bytes → Encryptor
  pub new_decryptor : Bytes → Bytes → Decryptor
  pub encrypt_next : Encryptor → Bytes → Bytes → Option (Bytes × Encryptor)
  pub encrypt_last : Encryptor → Bytes → Bytes → Option Bytes
  pub decrypt_next : Decryptor → Bytes → Bytes → Option (Bytes × Decryptor)
  pub decrypt_last : Decryptor → Bytes → Bytes → Option Bytes
  pub sha256 : Bytes → Bytes

-- What a call of the compressor hands to its writer, and its state after; `none` is an error of the
-- compressor itself, once those pieces were written.
pub record Pieces (Z : Type 0) : Type 0 where
  pub pieces : List Bytes
  pub next : Option Z

-- The Zstd encoder at level 3. `Write::write_all` and `try_finish` write pieces as they go.
pub record Compressor : Type 1 where
  pub Encoder : Type 0
  pub new : Option Encoder
  pub write_all : Encoder → Bytes → Pieces Encoder
  pub finish : Encoder → Pieces (Unit {0})

-- What a call of the raw Zstd decoder reports: how much input it read, what it wrote, and a hint that
-- is 0 exactly at the end of a frame.
pub record Status : Type 0 where
  pub bytes_read : ℕ
  pub output : Bytes
  pub remaining : ℕ

-- The raw Zstd decoder. `run` is given the input and the room for output.
pub record RawDecoder : Type 1 where
  pub Decoder : Type 0
  pub new : Option Decoder
  pub set_window_log_max : ℕ → Decoder → Option Decoder
  pub run : Bytes → ℕ → Decoder → Option Status × Decoder

-- A call reads no more than it is given.
pub record IsBounded (z : RawDecoder) : Type 0 where
  pub reads :
      (x : Bytes) (n : ℕ) (d : z.Decoder) {s : Status}
      → (z.run x n d).0 ≡ some s
      → s.bytes_read ≤ length x
