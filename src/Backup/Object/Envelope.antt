-- ===== src/Backup/Object/Envelope.antt =====
-- crates/kchat-backup/src/object/envelope.rs: the fixed header of an encrypted object.
pub mod RoundTrip
use kchat_rust_sdk.Base.{
  ℕ, ◌&&◌, ◌++◌, Bytes, codes, bytes_eq, u16_be, take, drop, slice, ok, err, if◌then◌else◌,
}
use kchat_rust_sdk.Backup.Error.{Fallible, unsupported_format}

abbrev pub envelope_magic : Bytes
envelope_magic = codes "KCBK"

abbrev pub envelope_version : ℕ
envelope_version = 1

abbrev pub crypto_suite_id : ℕ
crypto_suite_id = 1

abbrev pub compression_id : ℕ
compression_id = 1

abbrev pub envelope_header_bytes : ℕ
envelope_header_bytes = 29

abbrev pub stream_nonce_prefix_bytes : ℕ
stream_nonce_prefix_bytes = 19

abbrev pub compressed_block_bytes : ℕ
compressed_block_bytes = 65536

abbrev pub aead_tag_bytes : ℕ
aead_tag_bytes = 16

unfoldable pub parse_header : Bytes → Fallible Bytes
parse_header header =
    if bytes_eq (take 4 header) envelope_magic
      && bytes_eq (slice 4 2 header) (u16_be envelope_version)
      && bytes_eq (slice 6 2 header) (u16_be crypto_suite_id)
      && bytes_eq (slice 8 2 header) (u16_be compression_id)
    then ok (drop 10 header)
    else err unsupported_format

unfoldable pub serialize_header : Bytes → Bytes
serialize_header nonce_prefix =
    envelope_magic
    ++ (u16_be envelope_version
        ++ (u16_be crypto_suite_id ++ (u16_be compression_id ++ nonce_prefix)))
