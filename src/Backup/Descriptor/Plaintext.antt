-- ===== src/Backup/Descriptor/Plaintext.antt =====
-- The sealed part of a descriptor, and the layout of the whole.
use kchat_rust_sdk.Base.{
  ◌≡◌, sym, ◌∷◌, [], ◌++◌, arith, Bytes, bytes_eq, eq_of_bytes_eq, bytes_eq_refl, u16_be, take,
  drop, slice, length, replicate, length-append, length-drop, take-append-drop, slice-append-drop,
  take-append, drop-append, take_all, drop-drop, ok,
}
use kchat_rust_sdk.Backup.Crypto.{Crypto, IsLawful}
use kchat_rust_sdk.Backup.Key.{BackupKeyMaterial, derive_backup_id, derive_hkdf}
use kchat_rust_sdk.Backup.Context.{BackupAccountId, BackupId, derive_id}
use kchat_rust_sdk.Backup.Descriptor.Header.{DescriptorHeader, validate, parse, magic}
use kchat_rust_sdk.Backup.Descriptor.{descriptor_plaintext, validate_plaintext}

pub length-derive_id :
    (c : Crypto) (w : IsLawful c) (m : BackupKeyMaterial) (a : BackupAccountId) (i : BackupId)
    → derive_id c m a ≡ ok i
    → length i.bytes ≡ 32
unfolding derive_id derive_backup_id derive_hkdf
length-derive_id c w m a i h = grind (arith, w.hkdf_length)

pub length-descriptor_plaintext :
    (i : BackupId) → length i.bytes ≡ 32 → length (descriptor_plaintext i) ≡ 44
unfolding descriptor_plaintext u16_be
length-descriptor_plaintext i h = omega (arith, length-append i.bytes (0 ∷ 1 ∷ 0 ∷ 0 ∷ 0 ∷ 0 ∷ []))

pub validate_plaintext-descriptor_plaintext :
    (i : BackupId) → length i.bytes ≡ 32 → validate_plaintext (descriptor_plaintext i) i ≡ ok tt
unfolding validate_plaintext descriptor_plaintext u16_be bytes_eq
validate_plaintext-descriptor_plaintext i h =
    let tail : Bytes = 0 ∷ 1 ∷ 0 ∷ 0 ∷ 0 ∷ 0 ∷ [] in
    ground (
      arith,
      length-append i.bytes tail,
      take-append 32 i.bytes tail h,
      drop-append 32 i.bytes tail h,
      sym (drop-drop 2 32 (i.bytes ++ tail)),
      bytes_eq_refl i.bytes,
    )

plaintext_fields :
    (p : Bytes)
    → length p ≡ 44
    → take 4 p ++ (slice 4 2 p ++ (slice 6 32 p ++ (slice 38 2 p ++ slice 40 4 p))) ≡ p
plaintext_fields p h =
    rw
      (
        take_all 4 (drop 40 p) (omega (arith, length-drop 40 p)),
        slice-append-drop 38 2 p,
        slice-append-drop 6 32 p,
        slice-append-drop 4 2 p,
      )
      (take-append-drop 4 p)

pub validate_plaintext-eq-ok :
    (p : Bytes) (i : BackupId) → validate_plaintext p i ≡ ok tt → descriptor_plaintext i ≡ p
unfolding validate_plaintext descriptor_plaintext
validate_plaintext-eq-ok p i h = ground (
  arith,
  plaintext_fields p,
  eq_of_bytes_eq (take 4 p) magic,
  eq_of_bytes_eq (slice 4 2 p) (u16_be 1),
  eq_of_bytes_eq (slice 6 32 p) i.bytes,
  eq_of_bytes_eq (slice 38 2 p) (u16_be 1),
  eq_of_bytes_eq (slice 40 4 p) (replicate 4 0),
)

pub parse-append :
    (h : DescriptorHeader) (rest : Bytes)
    → length h.bytes ≡ 26
    → length rest ≡ 84
    → validate h ≡ ok tt
    → parse (h.bytes ++ rest) ≡ ok h
unfolding parse
parse-append h rest e f v =
    rw (take-append 26 h.bytes rest e) (ground (arith, length-append h.bytes rest))

pub parse-eq-ok :
    (s : Bytes) (h : DescriptorHeader)
    → parse s ≡ ok h
    → (length s ≡ 110) × (h.bytes ≡ take 26 s) × (validate h ≡ ok tt)
unfolding parse
parse-eq-ok s h e = ground arith
