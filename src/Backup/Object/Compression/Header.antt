-- ===== src/Backup/Object/Compression/Header.antt =====
-- `check_header` of crates/kchat-backup/src/object/compression.rs: the header of a Zstd frame.
use kchat_rust_sdk.Base.{
  ℕ, ◌+◌, ◌*◌, ◌/◌, ◌%◌, ◌^◌, ◌<◌, ◌≡◌, Bool, true, false, not, ◌||◌, [], ◌∷◌, Bytes, length, take,
  slice, get_or, ltb, ◌==◌, bytes_eq, if◌then◌else◌, arith, ok, err,
}
use kchat_rust_sdk.Backup.Error.{Fallible, invalid_compressed_data, resource_limit_exceeded}
use kchat_rust_sdk.Backup.Limits.{max_plaintext_object_bytes, max_zstd_window_bytes}

abbrev pub zstd_magic : Bytes
zstd_magic = 40 ∷ 181 ∷ 47 ∷ 253 ∷ []

-- The little-endian number.
unfoldable pub from_le : Bytes → ℕ
from_le [] = 0
from_le (b ∷ bs) = b + 256 * from_le bs

-- `descriptor & 0x20 != 0`
abbrev pub is_single : ℕ → Bool
is_single descriptor = descriptor / 32 % 2 == 1

abbrev pub size_bytes : ℕ → ℕ
size_bytes descriptor =
    if descriptor / 64 == 0
    then if is_single descriptor then 1 else 0
    else if descriptor / 64 == 1
    then 2
    else if descriptor / 64 == 2
    then 4
    else 8

abbrev pub size_offset : ℕ → ℕ
size_offset descriptor = if is_single descriptor then 5 else 6

unfoldable pub content_size : Bytes → ℕ
content_size header =
    let descriptor = get_or header 4 0 in
    let size = from_le (slice (size_offset descriptor) (size_bytes descriptor) header) in
    if size_bytes descriptor == 2 then size + 256 else size

unfoldable pub window_size : Bytes → ℕ
window_size header =
    let base = 2 ^ (10 + get_or header 5 0 / 8) in
    if is_single (get_or header 4 0)
    then content_size header
    else base + base / 8 * (get_or header 5 0 % 8)

-- `descriptor & 0x1b != 0`: a bit of 3 or of 24 is set.
unfoldable pub has_reserved_bits : ℕ → Bool
has_reserved_bits descriptor = not (descriptor % 4 == 0) || not (descriptor / 8 % 4 == 0)

unfoldable pub check_header : Bytes → Fallible Bool
check_header header =
    let descriptor = get_or header 4 0 in
    if ltb (length header) 5
    then ok false
    else if not (bytes_eq (take 4 header) zstd_magic)
    then err invalid_compressed_data
    else if has_reserved_bits descriptor
    then err invalid_compressed_data
    else if ltb (length header) (size_offset descriptor + size_bytes descriptor)
    then ok false
    else if ltb max_zstd_window_bytes (window_size header)
        || ltb max_plaintext_object_bytes (content_size header)
    then err resource_limit_exceeded
    else ok true

-- A Zstd header that is not decided yet is shorter than 14 bytes, so 14 bytes decide every
-- header.
pub check_header_undecided : (header : Bytes) → check_header header ≡ ok false → length header < 14
unfolding check_header
check_header_undecided header h = ground arith
