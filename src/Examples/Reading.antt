-- ===== src/Examples/Reading.antt =====
-- Objects that are read and decoded.
use kchat_rust_sdk.Base.{
  ℕ, ◌+◌, ◌≡◌, ◌≤◌, refl, false, some, List, [], ◌∷◌, ◌++◌, Bytes, codes, length, take, length-take,
  bytes_eq, arith, ok, from_be,
}
use kchat_rust_sdk.Backup.Limits.{max_ciphertext_object_bytes}
use kchat_rust_sdk.Backup.Exec.{Exec}
use kchat_rust_sdk.Backup.Object.Stream.{RawDecoder, IsBounded}
use kchat_rust_sdk.Backup.Object.Compression.{BoundedDecoder, Decoding, push}
use kchat_rust_sdk.Backup.Object.Compression.Header.{check_header, has_reserved_bits}
use kchat_rust_sdk.Backup.Object.Compression.Limits.{Keeps, push-Keeps}
use kchat_rust_sdk.Backup.Object.Reader.{
  CheckedSource, check_cancelled, read_capacity, read_open, read, read_rounds, read_exact,
  next_length,
}
use kchat_rust_sdk.Backup.Object.Reader.Open.{Opening, open_frames, frame_fuel}
use kchat_rust_sdk.Backup.Object.Reader.Total.{open_frames_enough_fuel}
use kchat_rust_sdk.Examples.Toys.{cipher, chunk_source, recorder}

-- A decoder that copies its input, as far as there is room.
abbrev pub copier : RawDecoder
copier = record {
  Decoder = Unit {0};
  new = some tt;
  set_window_log_max = λ n d. some d;
  run = λ x n d.
      (some (record { bytes_read = length (take n x); output = take n x; remaining = 1 }), d);
}

copier_reads : (x : Bytes) (n : ℕ) → length (take n x) ≤ length x
copier_reads x n = omega (arith, length-take n x)

copier-IsBounded : IsBounded copier
copier-IsBounded = record { reads = λ x n d {s} e. ground (arith, copier_reads x n) }

abbrev pub start : List Bytes → CheckedSource (List Bytes)
start s = record { source = s; bytes = 0; eof = false }

abbrev pub pieces : List Bytes
pieces = (1 ∷ 2 ∷ []) ∷ (3 ∷ []) ∷ []

abbrev pub three : Bytes
three = 1 ∷ 2 ∷ 3 ∷ []

three_read : (read_exact chunk_source 3 (start pieces)).0 ≡ ok three
unfolding read_exact read_rounds read read_open read_capacity check_cancelled
three_read = refl

abbrev pub length_pieces : List Bytes
length_pieces = (0 ∷ []) ∷ (0 ∷ 0 ∷ 20 ∷ []) ∷ []

length_read : (next_length chunk_source (start length_pieces)).0 ≡ ok (some 20)
unfolding next_length read_exact read_rounds read read_open read_capacity check_cancelled from_be
length_read = refl

abbrev pub short_header : Bytes
short_header = 40 ∷ 181 ∷ 47 ∷ 253 ∷ 0 ∷ []

header_undecided : check_header short_header ≡ ok false
unfolding check_header has_reserved_bits bytes_eq
header_undecided = refl

abbrev pub keep : Bytes → Exec Bytes (Unit {0})
keep x t = (ok tt, t ++ x)

abbrev pub go_on : Exec Bytes (Unit {0})
go_on t = (ok tt, t)

abbrev pub fresh : BoundedDecoder (Unit {0})
fresh = record {
  decoder = tt;
  header = [];
  header_checked = false;
  complete = false;
  total = 0;
  limit = 100;
}

abbrev pub two : Bytes
two = 1 ∷ 2 ∷ []

abbrev pub decoding : Decoding (Unit {0}) Bytes
decoding = record { inner = fresh; caller = [] }

fresh_within : fresh.total ≤ fresh.limit
fresh_within = omega arith

nothing_seen_keep : (x t : Bytes) → ◌≡◌ {A = ℕ} 0 0
nothing_seen_keep x t = refl

nothing_seen_go_on : (t : Bytes) → ◌≡◌ {A = ℕ} 0 0
nothing_seen_go_on t = refl

push-Keeps_example :
    Keeps copier keep go_on
      (λ t. 0)
      nothing_seen_keep
      nothing_seen_go_on
      decoding
      (push copier keep go_on (40 ∷ 181 ∷ []) decoding).1
push-Keeps_example =
    push-Keeps copier keep go_on (λ t. 0) nothing_seen_keep nothing_seen_go_on (40 ∷ 181 ∷ [])
      decoding fresh_within

abbrev pub opening : Opening cipher copier chunk_source recorder
opening = record { inner = fresh; caller = record { input = start pieces; sink = [] } }

nothing_taken : (start pieces).bytes ≤ max_ciphertext_object_bytes
nothing_taken = omega arith

open_frames_enough_fuel_example :
    open_frames cipher copier chunk_source recorder
      (frame_fuel cipher copier chunk_source recorder + 3)
      (codes "context")
      20
      0
      opening
    ≡ open_frames cipher copier chunk_source recorder
        (frame_fuel cipher copier chunk_source recorder)
        (codes "context")
        20
        0
        opening
open_frames_enough_fuel_example =
    open_frames_enough_fuel cipher copier chunk_source recorder 3 (codes "context") 20 0 opening
      fresh_within nothing_taken
