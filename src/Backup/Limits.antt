-- ===== src/Backup/Limits.antt =====
-- crates/kchat-backup/src/limits.rs
use kchat_rust_sdk.Base.{ℕ}

abbrev pub max_ciphertext_object_bytes : ℕ
max_ciphertext_object_bytes = 268435456

abbrev pub max_compressed_object_bytes : ℕ
max_compressed_object_bytes = 268435456

abbrev pub max_plaintext_object_bytes : ℕ
max_plaintext_object_bytes = 1073741824

abbrev pub max_zstd_window_bytes : ℕ
max_zstd_window_bytes = 8388608

abbrev pub max_encrypted_blocks_per_object : ℕ
max_encrypted_blocks_per_object = 4096

abbrev pub max_io_chunk_bytes : ℕ
max_io_chunk_bytes = 65536
