-- ===== src/Mls/Membership/Indices.antt =====
-- The indices of the members that are named, and of those that stay.
use kchat_rust_sdk.Base.{
  ℕ, ◌≡◌, refl, true, false, some, List, [], ◌∷◌, map, Bytes, ◌==◌, Bool-cases, Option-cases, arith,
  bytes_eq, bytes_eq_refl, eq_of_bytes_eq, subst, sym, ap, inl, inr,
}
use mathlib.Core.List.Memᴰ
use mathlib.Core.List.{Memᴰ}
use kchat_rust_sdk.Mls.OpenMls.{OpenMls}
use kchat_rust_sdk.Mls.Membership.{
  Membership, Member, contains_identity, contains_index, has_identity, find_members_by_identity,
  partition_without,
}

pub mem_of_contains_index : (js : List ℕ) (i : ℕ) → contains_index js i ≡ true → Memᴰ i js
unfolding contains_index
mem_of_contains_index [] i h = cc
mem_of_contains_index (j ∷ js) i h = elim (Bool-cases (j == i)) [
  | inl same ↦ Memᴰ.head (ground arith)
  | inr other ↦ Memᴰ.tail (mem_of_contains_index js i (ground arith))
]

pub contains_index-Memᴰ : (js : List ℕ) (i : ℕ) → Memᴰ i js → contains_index js i ≡ true
unfolding contains_index
contains_index-Memᴰ [] i m = absurd (Memᴰ.not-nil m)
contains_index-Memᴰ (j ∷ js) i (Memᴰ.head same) = ground arith
contains_index-Memᴰ (j ∷ js) i (Memᴰ.tail m) = ground (arith, contains_index-Memᴰ js i m)

mem_of_contains_identity :
    (ids : List Bytes) (id : Bytes) → contains_identity ids id ≡ true → Memᴰ id ids
unfolding contains_identity
mem_of_contains_identity [] id h = cc
mem_of_contains_identity (x ∷ ids) id h = elim (Bool-cases (bytes_eq x id)) [
  | inl same ↦ Memᴰ.head (sym (eq_of_bytes_eq x id same))
  | inr other ↦ Memᴰ.tail (mem_of_contains_identity ids id (ground arith))
]

contains_identity-Memᴰ :
    (ids : List Bytes) (id : Bytes) → Memᴰ id ids → contains_identity ids id ≡ true
unfolding contains_identity
contains_identity-Memᴰ [] id m = absurd (Memᴰ.not-nil m)
contains_identity-Memᴰ (x ∷ ids) id (Memᴰ.head same) =
    let known : bytes_eq x id ≡ true = subst (λ y. bytes_eq y id ≡ true) same (bytes_eq_refl id) in
    ground (arith, known)
contains_identity-Memᴰ (x ∷ ids) id (Memᴰ.tail m) = ground (arith, contains_identity-Memᴰ ids id m)

module _ (mls : OpenMls) (ops : Membership mls) where
  open mls use {Group, Store, Credential}

  -- A member whose basic identity is one of those named.
  abbrev pub IsNamed : List Bytes → Member Credential → Type 0
  IsNamed ids m = (id : Bytes) × (mls.basic_identity m.credential ≡ some id) × Memᴰ id ids

  has_identity-IsNamed :
      (ids : List Bytes) (m : Member Credential) → has_identity mls ops ids m ≡ true → IsNamed ids m
  has_identity-IsNamed ids m h = elim (Option-cases (mls.basic_identity m.credential)) [
    | inl nameless ↦ absurd (ground arith)
    | inr (id, known) ↦ (id, known, mem_of_contains_identity ids id (ground arith))
  ]

  IsNamed-has_identity :
      (ids : List Bytes) (m : Member Credential) → IsNamed ids m → has_identity mls ops ids m ≡ true
  IsNamed-has_identity ids m (id, known, i) = ground (arith, contains_identity-Memᴰ ids id i)

  -- The index of a member that is named.
  abbrev pub IsNamedIndex : List (Member Credential) → List Bytes → ℕ → Type 0
  IsNamedIndex ms ids i = (m : Member Credential) × Memᴰ m ms × IsNamed ids m × (m.index ≡ i)

  abbrev pub indices : List (Member Credential) → List Bytes → List ℕ
  indices ms ids = map (λ m. m.index) (find_members_by_identity mls ops ms ids)

  indices_named :
      (m : Member Credential) (ms : List (Member Credential)) (ids : List Bytes)
      → has_identity mls ops ids m ≡ true
      → indices (m ∷ ms) ids ≡ m.index ∷ indices ms ids
  unfolding find_members_by_identity
  indices_named m ms ids h = rw h refl

  indices_other :
      (m : Member Credential) (ms : List (Member Credential)) (ids : List Bytes)
      → has_identity mls ops ids m ≡ false
      → indices (m ∷ ms) ids ≡ indices ms ids
  unfolding find_members_by_identity
  indices_other m ms ids h = rw h refl

  IsNamedIndex-cons :
      (x : Member Credential) (ms : List (Member Credential)) (ids : List Bytes) (i : ℕ)
      → IsNamedIndex ms ids i
      → IsNamedIndex (x ∷ ms) ids i
  IsNamedIndex-cons x ms ids i (m, h, named, at) = (m, Memᴰ.tail h, named, at)

  pub indices-IsNamedIndex :
      (ms : List (Member Credential)) (ids : List Bytes) (i : ℕ)
      → Memᴰ i (indices ms ids)
      → IsNamedIndex ms ids i
  indices-IsNamedIndex [] ids i h = absurd (unfold find_members_by_identity in Memᴰ.not-nil h)
  indices-IsNamedIndex (m ∷ ms) ids i h = elim (Bool-cases (has_identity mls ops ids m)) [
    | inl named ↦ elim (Memᴰ.cases_cons (subst (λ l. Memᴰ i l) (indices_named m ms ids named) h)) [
      | inl here ↦ (m, Memᴰ.head refl, has_identity-IsNamed ids m named, sym here)
      | inr later ↦ IsNamedIndex-cons m ms ids i (indices-IsNamedIndex ms ids i later)
    ]
    | inr other ↦
        IsNamedIndex-cons m ms ids i
          (indices-IsNamedIndex ms ids i (subst (λ l. Memᴰ i l) (indices_other m ms ids other) h))
  ]

  pub IsNamedIndex-indices :
      (ms : List (Member Credential)) (ids : List Bytes) (m : Member Credential)
      → Memᴰ m ms
      → IsNamed ids m
      → Memᴰ m.index (indices ms ids)
  IsNamedIndex-indices [] ids m h n = absurd (Memᴰ.not-nil h)
  IsNamedIndex-indices (x ∷ ms) ids m (Memᴰ.head same) n =
      let named : has_identity mls ops ids x ≡ true =
        subst (λ y. has_identity mls ops ids y ≡ true) same (IsNamed-has_identity ids m n) in
      subst (λ l. Memᴰ m.index l) (sym (indices_named x ms ids named))
        (Memᴰ.head (ap (λ (y : Member Credential). y.index) same))
  IsNamedIndex-indices (x ∷ ms) ids m (Memᴰ.tail h) n =
      elim (Bool-cases (has_identity mls ops ids x)) [
        | inl named ↦
            subst (λ l. Memᴰ m.index l) (sym (indices_named x ms ids named))
              (Memᴰ.tail (IsNamedIndex-indices ms ids m h n))
        | inr other ↦
            subst (λ l. Memᴰ m.index l) (sym (indices_other x ms ids other))
              (IsNamedIndex-indices ms ids m h n)
      ]

  -- What the loop keeps: the indices of members that are not among `js`.
  partition_in :
      (js : List ℕ) (m : Member Credential) (ms : List (Member Credential))
      → contains_index js m.index ≡ true
      → partition_without mls ops js (m ∷ ms) ≡ partition_without mls ops js ms
  unfolding partition_without
  partition_in js m ms h = rw h refl

  partition_out :
      (js : List ℕ) (m : Member Credential) (ms : List (Member Credential))
      → contains_index js m.index ≡ false
      → partition_without mls ops js (m ∷ ms) ≡ m.index ∷ partition_without mls ops js ms
  unfolding partition_without
  partition_out js m ms h = rw h refl

  abbrev pub IsKept : List ℕ → List (Member Credential) → ℕ → Type 0
  IsKept js ms i =
      (m : Member Credential) × Memᴰ m ms × (m.index ≡ i) × (contains_index js i ≡ false)

  IsKept-cons :
      (js : List ℕ) (x : Member Credential) (ms : List (Member Credential)) (i : ℕ)
      → IsKept js ms i
      → IsKept js (x ∷ ms) i
  IsKept-cons js x ms i (m, h, at, out) = (m, Memᴰ.tail h, at, out)

  pub partition_without-IsKept :
      (js : List ℕ) (ms : List (Member Credential)) (i : ℕ)
      → Memᴰ i (partition_without mls ops js ms)
      → IsKept js ms i
  partition_without-IsKept js [] i h = absurd (unfold partition_without in Memᴰ.not-nil h)
  partition_without-IsKept js (m ∷ ms) i h = elim (Bool-cases (contains_index js m.index)) [
    | inl inside ↦
        IsKept-cons js m ms i
          (partition_without-IsKept js ms i (subst (λ l. Memᴰ i l) (partition_in js m ms inside) h))
    | inr out ↦ elim (Memᴰ.cases_cons (subst (λ l. Memᴰ i l) (partition_out js m ms out) h)) [
      | inl here ↦
          (m, Memᴰ.head refl, sym here, subst (λ k. contains_index js k ≡ false) (sym here) out)
      | inr later ↦ IsKept-cons js m ms i (partition_without-IsKept js ms i later)
    ]
  ]

  pub IsKept-partition_without :
      (js : List ℕ) (ms : List (Member Credential)) (m : Member Credential)
      → Memᴰ m ms
      → contains_index js m.index ≡ false
      → Memᴰ m.index (partition_without mls ops js ms)
  IsKept-partition_without js [] m h out = absurd (Memᴰ.not-nil h)
  IsKept-partition_without js (x ∷ ms) m (Memᴰ.head same) out =
      let out' : contains_index js x.index ≡ false =
        subst (λ (y : Member Credential). contains_index js y.index ≡ false) same out in
      subst (λ l. Memᴰ m.index l) (sym (partition_out js x ms out'))
        (Memᴰ.head (ap (λ (y : Member Credential). y.index) same))
  IsKept-partition_without js (x ∷ ms) m (Memᴰ.tail h) out =
      elim (Bool-cases (contains_index js x.index)) [
        | inl inside ↦
            subst (λ l. Memᴰ m.index l) (sym (partition_in js x ms inside))
              (IsKept-partition_without js ms m h out)
        | inr out' ↦
            subst (λ l. Memᴰ m.index l) (sym (partition_out js x ms out'))
              (Memᴰ.tail (IsKept-partition_without js ms m h out))
      ]
