-- ===== src/Backup/Object/Envelope/RoundTrip.antt =====
-- The header of an encrypted object, parsed and serialised.
use kchat_rust_sdk.Base.{
  ◌≡◌, refl, ◌↔◌, ◌++◌, arith, Bytes, bytes_eq, eq_of_bytes_eq, u16_be, take, drop, slice,
  take-append-drop, slice-append-drop, ok,
}
use kchat_rust_sdk.Backup.Object.Envelope.{parse_header, serialize_header, envelope_magic}

parse_header-serialize_header : (p : Bytes) → parse_header (serialize_header p) ≡ ok p
unfolding parse_header serialize_header bytes_eq u16_be
parse_header-serialize_header p = refl

-- The four fixed fields and the rest make up the whole header.
header_fields :
    (h : Bytes) → take 4 h ++ (slice 4 2 h ++ (slice 6 2 h ++ (slice 8 2 h ++ drop 10 h))) ≡ h
header_fields h =
    rw (slice-append-drop 8 2 h, slice-append-drop 6 2 h, slice-append-drop 4 2 h)
      (take-append-drop 4 h)

serialize_header-parse_header : (h p : Bytes) → parse_header h ≡ ok p → serialize_header p ≡ h
unfolding parse_header serialize_header
serialize_header-parse_header h p e = ground (
  arith,
  header_fields h,
  eq_of_bytes_eq (take 4 h) envelope_magic,
  eq_of_bytes_eq (slice 4 2 h) (u16_be 1),
  eq_of_bytes_eq (slice 6 2 h) (u16_be 1),
  eq_of_bytes_eq (slice 8 2 h) (u16_be 1),
)

-- A header parses to a nonce prefix exactly when it is the serialisation of that prefix.
pub parse_header-eq-ok_iff : (h p : Bytes) → (parse_header h ≡ ok p) ↔ (serialize_header p ≡ h)
parse_header-eq-ok_iff h p =
    (serialize_header-parse_header h p, λ e. rw (← e) (parse_header-serialize_header p))
