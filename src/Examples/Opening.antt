-- ===== src/Examples/Opening.antt =====
-- An object that is opened.
use kchat_rust_sdk.Base.{
  ℕ, zero, suc, ◌≤◌, ◌≡◌, refl, Bool, true, false, some, [], ◌∷◌, ◌++◌, Bytes, length, take, drop,
  take-append-drop, replicate, bytes_eq, u16_be, u32_be, from_be, arith, ok,
}
use kchat_rust_sdk.Backup.Object.Envelope.{parse_header, serialize_header}
use kchat_rust_sdk.Backup.Object.Io.{ByteSource, checked_add_limited}
use kchat_rust_sdk.Backup.Object.Stream.{RawDecoder}
use kchat_rust_sdk.Backup.Object.Compression.{
  new_decoder, finish_decoder, push_header, push, decode, decode_rounds, decode_round, decode_step,
  after_round, run_decoder, add_total,
}
use kchat_rust_sdk.Backup.Object.Compression.Header.{
  check_header, has_reserved_bits, window_size, content_size, from_le,
}
use kchat_rust_sdk.Backup.Object.Reader.{
  new_checked_source, check_cancelled, read_capacity, read_open, read, read_rounds, read_exact,
  next_length,
}
use kchat_rust_sdk.Backup.Object.Reader.Feed.{IsFeed}
use kchat_rust_sdk.Backup.Object.Reader.Open.{
  push_plain, open_frame, open_frames, authenticate_envelope, finish_opening, open_object,
}
use kchat_rust_sdk.Backup.Object.Reader.Frames.{Authentic}
use kchat_rust_sdk.Backup.Object.Reader.Authentic.{open_object-Authentic}
use kchat_rust_sdk.Examples.Toys.{cipher, recorder, tag}
use kchat_rust_sdk.Examples.Objects.{object_context}

-- A source that gives the bytes of a list, as many as fit.
abbrev pub byte_source : ByteSource Bytes
byte_source = record {
  read_chunk = λ n s. (ok (take n s), drop n s);
  is_cancelled = λ s. (false, s);
}

nothing_left : (n : ℕ) (s : Bytes) → 1 ≤ n → take n s ≡ [] → s ≡ []
nothing_left zero s h e = absurd (omega arith)
nothing_left (suc n) [] h e = refl
nothing_left (suc n) (x ∷ s) h e = absurd (ground arith)

byte_source-IsFeed : IsFeed byte_source (λ s. s)
byte_source-IsFeed = record {
  polls = λ s. refl;
  reads = λ n s {x} e. ground (arith, take-append-drop n s);
  ends = λ n s h e. nothing_left n s h (ground arith);
}

-- A decoder that swallows its first input, and ends the frame with the second.
abbrev pub two_calls : RawDecoder
two_calls = record {
  Decoder = Bool;
  new = some false;
  set_window_log_max = λ n d. some d;
  run = λ x n d. elim x [
    | [] ↦ (some (record { bytes_read = 0; output = []; remaining = 1 }), d)
    | b ∷ bs ↦ elim d [
      | false ↦ (some (record { bytes_read = length (b ∷ bs); output = []; remaining = 1 }), true)
      | true ↦
          (some (record { bytes_read = length (b ∷ bs); output = b ∷ bs; remaining = 0 }), true)
    ]
  ];
}

-- A Zstd header for two bytes, and the two.
abbrev pub zstd_frame : Bytes
zstd_frame = 40 ∷ 181 ∷ 47 ∷ 253 ∷ 32 ∷ 2 ∷ 65 ∷ 66 ∷ []

abbrev pub sealed_object : Bytes
unfolding serialize_header u16_be u32_be
sealed_object = serialize_header (replicate 19 3) ++ (u32_be 24 ++ (tag ++ zstd_frame))

object_opened :
    (open_object cipher two_calls byte_source recorder object_context sealed_object []).0 ≡ ok tt
unfolding sealed_object open_object new_checked_source new_decoder authenticate_envelope
    finish_opening finish_decoder read_exact read_rounds read read_open read_capacity
    check_cancelled next_length from_be parse_header bytes_eq u16_be open_frames open_frame
    push_plain push push_header check_header has_reserved_bits window_size content_size from_le
    decode decode_rounds decode_round decode_step after_round run_decoder add_total
    checked_add_limited
object_opened = refl

open_object-Authentic_example :
    (nonce : Bytes) × (prefix : Bytes) × (wire : Bytes) × (sealed_object
      ≡ serialize_header nonce ++ (prefix ++ wire))
    × Authentic cipher object_context.canonical_bytes
        (cipher.new_decryptor object_context.object_key.bytes nonce)
        (from_be 0 prefix)
        wire
open_object-Authentic_example =
    open_object-Authentic cipher two_calls byte_source recorder (λ s. s) byte_source-IsFeed
      object_context sealed_object [] object_opened
