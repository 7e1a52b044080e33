-- ===== src/Backup/Descriptor/Validity.antt =====
-- Which headers a descriptor may have.
use kchat_rust_sdk.Base.{
  ◌≡◌, refl, ◌↔◌, ◌⊎◌, inl, inr, ◌++◌, arith, Bytes, bytes_eq, eq_of_bytes_eq, u16_be, take, drop,
  slice, length, replicate, length-drop, take-append-drop, slice-append-drop, slice_one, ok,
}
use kchat_rust_sdk.Backup.Descriptor.Header.{DescriptorHeader, magic, mnemonic, password, validate}

validate-mnemonic : validate mnemonic ≡ ok tt
unfolding validate mnemonic bytes_eq u16_be
validate-mnemonic = refl

validate-password : (s : Bytes) → validate (password s) ≡ ok tt
unfolding validate mnemonic password bytes_eq u16_be
validate-password s = refl

-- A header by its fields.
header_fields :
    (h : Bytes)
    → take 4 h ++ (slice 4 2 h ++ (slice 6 1 h ++ (slice 7 1 h ++ (slice 8 2 h ++ drop 10 h)))) ≡ h
header_fields h =
    rw
      (
        slice-append-drop 8 2 h,
        slice-append-drop 7 1 h,
        slice-append-drop 6 1 h,
        slice-append-drop 4 2 h,
      )
      (take-append-drop 4 h)

validate-eq-ok :
    (h : DescriptorHeader)
    → length h.bytes ≡ 26
    → validate h ≡ ok tt
    → (h ≡ mnemonic) ⊎ (h ≡ password (drop 10 h.bytes))
unfolding validate mnemonic password u16_be
validate-eq-ok h e v = ground (
  arith,
  header_fields h.bytes,
  slice_one 6 h.bytes 0 (omega arith),
  slice_one 7 h.bytes 0 (omega arith),
  eq_of_bytes_eq (take 4 h.bytes) magic,
  eq_of_bytes_eq (slice 4 2 h.bytes) (u16_be 1),
  eq_of_bytes_eq (slice 8 2 h.bytes) (u16_be 0),
  eq_of_bytes_eq (slice 8 2 h.bytes) (u16_be 1),
  eq_of_bytes_eq (drop 10 h.bytes) (replicate 16 0),
)

-- The headers of 26 bytes that are accepted are the mnemonic header and the password headers of
-- the 16-byte salts.
pub validate-eq-ok_iff :
    (h : DescriptorHeader)
    → length h.bytes ≡ 26
    → (validate h ≡ ok tt) ↔ ((h ≡ mnemonic) ⊎ ((s : Bytes) × (length s ≡ 16) × (h ≡ password s)))
validate-eq-ok_iff h e = (
  λ v. elim (validate-eq-ok h e v) [
    | inl m ↦ inl m
    | inr p ↦ inr (drop 10 h.bytes, omega (arith, length-drop 10 h.bytes), p)
  ],
  elim [ inl m ↦ rw m validate-mnemonic | inr p ↦ rw (p.2) (validate-password p.0) ],
)
