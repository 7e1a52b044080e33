-- ===== src/Backup/Object/Reader/Feed.antt =====
-- Reading from a source with fixed contents.
use kchat_rust_sdk.Base.{
  ℕ, zero, suc, ◌-◌, ◌≡◌, ◌≤◌, sym, ap, ◌∙◌, true, none, some, [], ◌++◌, inl, inr, Bytes, length,
  arith, ok, from_be, Result-cases, Bool-cases, ◌==◌, append_assoc, length-eq_zero,
}
use kchat_rust_sdk.Backup.Object.Io.{ByteSource}
use kchat_rust_sdk.Backup.Object.Reader.{
  CheckedSource, check_cancelled, read_capacity, read_open, read, read_rounds, read_exact,
  next_length,
}
use kchat_rust_sdk.Backup.Object.Reader.Reads.{round-ok, next_length-rest}

-- A source whose state shows the bytes that it has still to give. An empty read into a buffer that is
-- not empty is its end.
pub record IsFeed {S : Type 0} (input : ByteSource S) (rest : S → Bytes) : Type 0 where
  pub polls : (s : S) → rest (input.is_cancelled s).1 ≡ rest s
  pub reads :
      (n : ℕ) (s : S) {x : Bytes}
      → (input.read_chunk n s).0 ≡ ok x
      → rest s ≡ x ++ rest (input.read_chunk n s).1
  pub ends : (n : ℕ) (s : S) → 1 ≤ n → (input.read_chunk n s).0 ≡ ok [] → rest s ≡ []

module _ {S : Type 0} (input : ByteSource S) (rest : S → Bytes) (law : IsFeed input rest) where
  abbrev pub IsAtEnd : CheckedSource S → Type 0
  IsAtEnd c = c.eof ≡ true → rest c.source ≡ []

  -- From `c` to `c'` exactly the bytes `x` came from the source.
  pub record Pulls (x : Bytes) (c c' : CheckedSource S) : Type 0 where
    pub taken : rest c.source ≡ x ++ rest c'.source
    pub at_end : IsAtEnd c'

  pub check_cancelled-Pulls :
      (c : CheckedSource S) → IsAtEnd c → Pulls [] c (check_cancelled input c).1
  unfolding check_cancelled
  check_cancelled-Pulls c v = grind (arith, law.polls)

  capacity_positive : (n b : ℕ) → 1 ≤ read_capacity input (suc n) b
  unfolding read_capacity
  capacity_positive n b = omega arith

  read_open-Pulls :
      (n : ℕ) (c : CheckedSource S) (x : Bytes)
      → (read_open input (suc n) c).0 ≡ ok x
      → Pulls x c (read_open input (suc n) c).1
        × (length x ≡ 0 → rest (read_open input (suc n) c).1.source ≡ [])
  unfolding read_open check_cancelled
  read_open-Pulls n c x h =
      let n' = read_capacity input (suc n) c.bytes in
      let s = (input.read_chunk n' c.source).1 in
      elim (Result-cases (input.read_chunk n' c.source).0) [
        | inr (e, q) ↦ absurd (ground arith)
        | inl (y, q) ↦
            let nothing : length y ≡ 0 → rest c.source ≡ [] = λ z.
              law.ends n' c.source (capacity_positive n c.bytes) (q ∙ ap ok (length-eq_zero y z)) in
            let empty : length y ≡ 0 → y ≡ [] = length-eq_zero y in
            let taken = law.reads n' c.source q in
            let kept = law.polls s in
            let same : x ≡ y = ground arith in
            (
              record {
                taken = ground (arith, taken, kept, same);
                at_end = ground (arith, taken, kept, nothing, empty);
              },
              ground (arith, taken, kept, nothing, empty, same),
            )
      ]

  Pulls-append :
      (x y : Bytes) (a b c : CheckedSource S) → Pulls x a b → Pulls y b c → Pulls (x ++ y) a c
  Pulls-append x y a b c v w = record {
    taken = v.taken ∙ ap (x ++◌) w.taken ∙ sym (append_assoc x y (rest c.source));
    at_end = w.at_end;
  }

  read-Pulls :
      (n : ℕ) (c : CheckedSource S) (x : Bytes)
      → IsAtEnd c
      → (read input (suc n) c).0 ≡ ok x
      → Pulls x c (read input (suc n) c).1
        × (length x ≡ 0 → rest (read input (suc n) c).1.source ≡ [])
  unfolding read
  read-Pulls n c x v h =
      let c₁ = (check_cancelled input c).1 in
      let polled = check_cancelled-Pulls c v in
      elim (Result-cases (check_cancelled input c).0) [
        | inr (e, q) ↦ absurd (ground arith)
        | inl (u, q) ↦ elim (Bool-cases c₁.eof) [
          | inl done ↦
              let nothing = polled.at_end done in
              let same : x ≡ [] = ground arith in
              rw same (ground (arith, polled, nothing), ground (arith, nothing))
          | inr open_ ↦
              let opened : (read_open input (suc n) c₁).0 ≡ ok x = ground arith in
              let (pulled, nothing) = read_open-Pulls n c₁ x opened in
              let whole = Pulls-append [] x c c₁ (read_open input (suc n) c₁).1 polled pulled in
              (ground (arith, whole), ground (arith, nothing))
        ]
      ]

  read_rounds-Pulls :
      (fuel n : ℕ) (c : CheckedSource S) (y : Bytes)
      → IsAtEnd c
      → (read_rounds input fuel n c).0 ≡ ok y
      → Pulls y c (read_rounds input fuel n c).1
  unfolding read_rounds
  read_rounds-Pulls zero n c y v h = ground arith
  read_rounds-Pulls (suc fuel) zero c y v h = ground arith
  read_rounds-Pulls (suc fuel) (suc n) c y v h = elim (Result-cases (read input (suc n) c).0) [
    | inl (x, first) ↦
        let (z, whole, some_bytes, more, same) = round-ok input fuel n c x y first h in
        let (pulled, nothing) = read-Pulls n c x v first in
        let c' = (read input (suc n) c).1 in
        rw (whole, same)
          (Pulls-append x z c c' _ pulled
            (read_rounds-Pulls fuel (suc n - length x) c' z pulled.at_end more))
    | inr (problem, first) ↦ absurd (ground arith)
  ]

  pub read_exact-Pulls :
      (n : ℕ) (c : CheckedSource S) (y : Bytes)
      → IsAtEnd c
      → (read_exact input n c).0 ≡ ok y
      → Pulls y c (read_exact input n c).1
  unfolding read_exact
  read_exact-Pulls n c y v h = read_rounds-Pulls n n c y v h

  pub next_length-Pulls :
      (c : CheckedSource S) (len : ℕ)
      → IsAtEnd c
      → (next_length input c).0 ≡ ok (some len)
      → (x : Bytes) × (len ≡ from_be 0 x) × Pulls x c (next_length input c).1
  next_length-Pulls c len v h = elim (Result-cases (read input 1 c).0) [
    | inl (x, first) ↦
        let (y, more, one, value, low, high, same) = next_length-rest input c x len first h in
        let (pulled, nothing) = read-Pulls 0 c x v first in
        (
          x ++ y,
          value,
          rw same (
              Pulls-append x y c (read input 1 c).1 _ pulled
                (read_exact-Pulls 3 (read input 1 c).1 y pulled.at_end more)),
        )
    | inr (problem, first) ↦ absurd (unfold next_length in ground arith)
  ]

  -- No length follows only at the end of the source.
  pub next_length_end :
      (c : CheckedSource S) → IsAtEnd c → (next_length input c).0 ≡ ok none → rest c.source ≡ []
  unfolding next_length
  next_length_end c v h = elim (Result-cases (read input 1 c).0) [
    | inr (problem, first) ↦ absurd (ground arith)
    | inl (x, first) ↦
        let (pulled, nothing) = read-Pulls 0 c x v first in
        elim (Bool-cases (length x == 0)) [
          | inl empty ↦
              let no_bytes = length-eq_zero x (ground arith) in
              ground (arith, pulled, nothing, no_bytes)
          | inr some_bytes ↦ elim (Result-cases (read_exact input 3 (read input 1 c).1).0) [
            | inl (y, more) ↦ absurd (ground arith)
            | inr (problem, more) ↦ absurd (ground arith)
          ]
        ]
  ]
