-- ===== src/Backup/Object/Reader/Reads.antt =====
-- What a read takes, and that the cap holds.
use kchat_rust_sdk.Base.{
  ℕ, zero, suc, ◌+◌, ◌-◌, ◌≡◌, ◌≤◌, some, ◌++◌, inl, inr, Bytes, length, length-append, arith, ok,
  from_be, Result-cases,
}
use kchat_rust_sdk.Backup.Limits.{max_ciphertext_object_bytes}
use kchat_rust_sdk.Backup.Object.Io.{ByteSource}
use kchat_rust_sdk.Backup.Object.Reader.{
  CheckedSource, check_cancelled, read_capacity, read_open, read, read_rounds, read_exact,
  next_length,
}

module _ {S : Type 0} (input : ByteSource S) where
  -- From `c` to `c'` the bytes `x` were read, and the cap was kept.
  pub record Took (x : Bytes) (c c' : CheckedSource S) : Type 0 where
    pub counted : c'.bytes ≡ c.bytes + length x
    pub within : c.bytes ≤ max_ciphertext_object_bytes → c'.bytes ≤ max_ciphertext_object_bytes

  pub check_cancelled-ok :
      (c : CheckedSource S)
      → ((check_cancelled input c).1.bytes ≡ c.bytes) × ((check_cancelled input c).1.eof ≡ c.eof)
  unfolding check_cancelled
  check_cancelled-ok c = ground arith

  read-Took :
      (n : ℕ) (c : CheckedSource S) (x : Bytes)
      → (read input n c).0 ≡ ok x
      → (length x ≤ n) × Took x c (read input n c).1
  unfolding read read_open check_cancelled read_capacity
  read-Took n c x h = ground arith

  Took-append :
      (x y : Bytes) (c c' c'' : CheckedSource S) → Took x c c' → Took y c' c'' → Took (x ++ y) c c''
  Took-append x y c c' c'' v w = record {
    counted = omega (arith, v.counted, w.counted, length-append x y);
    within = λ h. w.within (v.within h);
  }

  pub round-ok :
      (fuel missing : ℕ) (c : CheckedSource S) (x y : Bytes)
      → (read input (suc missing) c).0 ≡ ok x
      → (read_rounds input (suc fuel) (suc missing) c).0 ≡ ok y
      → (z : Bytes) × (y ≡ x ++ z)
        × (1 ≤ length x)
        × ((read_rounds input fuel (suc missing - length x) (read input (suc missing) c).1).0
            ≡ ok z)
        × ((read_rounds input (suc fuel) (suc missing) c).1
            ≡ (read_rounds input fuel (suc missing - length x) (read input (suc missing) c).1).1)
  unfolding read_rounds
  round-ok fuel missing c x y h e =
      elim (Result-cases
        (read_rounds input fuel (suc missing - length x) (read input (suc missing) c).1).0) [
          | inl (z, more) ↦ (z, ground arith, ground arith, more, ground arith)
          | inr (problem, more) ↦ absurd (ground arith)
        ]

  read_rounds-Took :
      (fuel n : ℕ) (c : CheckedSource S) (y : Bytes)
      → n ≤ fuel
      → (read_rounds input fuel n c).0 ≡ ok y
      → (length y ≡ n) × Took y c (read_rounds input fuel n c).1
  unfolding read_rounds
  read_rounds-Took zero n c y k h = ground arith
  read_rounds-Took (suc fuel) zero c y k h = ground arith
  read_rounds-Took (suc fuel) (suc n) c y k h = elim (Result-cases (read input (suc n) c).0) [
    | inl (x, first) ↦
        let (z, whole, some_bytes, more, same) = round-ok fuel n c x y first h in
        let (short, took) = read-Took (suc n) c x first in
        let c' = (read input (suc n) c).1 in
        let (len, took') = read_rounds-Took fuel (suc n - length x) c' z (omega arith) more in
        (
          rw whole (omega (arith, length-append x z)),
          rw (whole, same) (Took-append x z c c' _ took took'),
        )
    | inr (problem, first) ↦ absurd (ground arith)
  ]

  -- An exact read that succeeds gives exactly as many bytes as were asked for and counts them,
  -- and the cap on the bytes of an object stays kept.
  pub read_exact-Took :
      (n : ℕ) (c : CheckedSource S) (y : Bytes)
      → (read_exact input n c).0 ≡ ok y
      → (length y ≡ n) × Took y c (read_exact input n c).1
  unfolding read_exact
  read_exact-Took n c y h = read_rounds-Took n n c y (omega arith) h

  pub next_length-rest :
      (c : CheckedSource S) (x : Bytes) (len : ℕ)
      → (read input 1 c).0 ≡ ok x
      → (next_length input c).0 ≡ ok (some len)
      → (y : Bytes) × ((read_exact input 3 (read input 1 c).1).0 ≡ ok y)
        × (1 ≤ length x)
        × (len ≡ from_be 0 (x ++ y))
        × (16 ≤ len)
        × (len ≤ 65552)
        × ((next_length input c).1 ≡ (read_exact input 3 (read input 1 c).1).1)
  unfolding next_length
  next_length-rest c x len h e = elim (Result-cases (read_exact input 3 (read input 1 c).1).0) [
    | inl (y, more) ↦
        (y, more, ground arith, ground arith, ground arith, ground arith, ground arith)
    | inr (problem, more) ↦ absurd (ground arith)
  ]

  -- A block length that is accepted is the big-endian value of the four bytes read for it, and
  -- has room for a tag and for at most a block. The four bytes are counted, and the cap stays
  -- kept.
  pub next_length-Took :
      (c : CheckedSource S) (len : ℕ)
      → (next_length input c).0 ≡ ok (some len)
      → (16 ≤ len)
        × (len ≤ 65552)
        × ((x : Bytes) × (length x ≡ 4) × (len ≡ from_be 0 x) × Took x c (next_length input c).1)
  next_length-Took c len h = elim (Result-cases (read input 1 c).0) [
    | inl (x, first) ↦
        let (y, more, one, value, low, high, same) = next_length-rest c x len first h in
        let (short, took) = read-Took 1 c x first in
        let (three, took') = read_exact-Took 3 (read input 1 c).1 y more in
        (
          low,
          high,
          (
            x ++ y,
            omega (arith, length-append x y),
            value,
            rw same (Took-append x y c (read input 1 c).1 _ took took'),
          ),
        )
    | inr (problem, first) ↦ absurd (unfold next_length in ground arith)
  ]
