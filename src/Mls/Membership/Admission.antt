-- ===== src/Mls/Membership/Admission.antt =====
-- Who is let into a group.
use kchat_rust_sdk.Base.{
  ◌≡◌, ◌≢◌, refl, true, false, some, List, [], ◌∷◌, Bytes, arith, bytes_eq_refl, ok, Result-cases,
  subst, sym, ◌⊎◌, inl, inr,
}
use mathlib.Core.List.Memᴰ
use mathlib.Core.List.{Memᴰ}
use kchat_rust_sdk.Mls.OpenMls.{OpenMls}
use kchat_rust_sdk.Mls.Membership.{
  Membership, Member, AddMembersResult, lifetime_error, other_error, contains_identity,
  has_identity, find_members_by_identity, get_identity_from_key_packages, valid_key_packages,
  check_admission,
}
use kchat_rust_sdk.Mls.Membership.Operations.{add_members}

module _ (mls : OpenMls) (ops : Membership mls) where
  open mls use {Group, Store, Credential}

  -- A list of which no member was found has none with one of the identities.
  has_identity-find_members_by_identity :
      (ms : List (Member Credential)) (ids : List Bytes) (m : Member Credential)
      → find_members_by_identity mls ops ms ids ≡ []
      → Memᴰ m ms
      → has_identity mls ops ids m ≡ false
  unfolding find_members_by_identity
  has_identity-find_members_by_identity [] ids m e i = absurd (Memᴰ.not-nil i)
  has_identity-find_members_by_identity (x ∷ xs) ids m e (Memᴰ.head same) =
      subst (λ y. has_identity mls ops ids y ≡ false) (sym same) (ground arith)
  has_identity-find_members_by_identity (x ∷ xs) ids m e (Memᴰ.tail i) =
      has_identity-find_members_by_identity xs ids m (ground arith) i

  contains_identity-get_identity :
      (ks : List ops.KeyPackage) (k : ops.KeyPackage) (id : Bytes)
      → mls.basic_identity (ops.leaf_credential k) ≡ some id
      → Memᴰ k ks
      → contains_identity (get_identity_from_key_packages mls ops ks) id ≡ true
  unfolding get_identity_from_key_packages contains_identity
  contains_identity-get_identity [] k id e i = absurd (Memᴰ.not-nil i)
  contains_identity-get_identity (x ∷ xs) k id e (Memᴰ.head same) =
      let known : mls.basic_identity (ops.leaf_credential x) ≡ some id =
        subst (λ y. mls.basic_identity (ops.leaf_credential y) ≡ some id) same e in
      ground (arith, known, bytes_eq_refl id)
  contains_identity-get_identity (x ∷ xs) k id e (Memᴰ.tail i) =
      ground (arith, contains_identity-get_identity xs k id e i)

  -- A package that one of the byte strings gives, and that is valid.
  abbrev pub IsValidated : List Bytes → ops.KeyPackage → Type 0
  IsValidated ins k =
      (bytes : Bytes) × Memᴰ bytes ins
      × (parsed : ops.KeyPackageIn) × (ops.parse_key_package bytes ≡ ok parsed)
      × (ops.validate parsed ≡ ok k)

  -- The first byte string gives the first package, or a package that is left out.
  valid_key_packages-cons :
      (bytes : Bytes) (ins : List Bytes) (ks : List ops.KeyPackage)
      → valid_key_packages mls ops (bytes ∷ ins) ≡ ok ks
      → (valid_key_packages mls ops ins ≡ ok ks)
        ⊎ ((k : ops.KeyPackage) × (rest : List ops.KeyPackage) × (parsed : ops.KeyPackageIn)
            × (ops.parse_key_package bytes ≡ ok parsed)
            × (ops.validate parsed ≡ ok k)
            × (valid_key_packages mls ops ins ≡ ok rest)
            × (ks ≡ k ∷ rest))
  unfolding valid_key_packages
  valid_key_packages-cons bytes ins ks e = elim (Result-cases (ops.parse_key_package bytes)) [
    | inr failed ↦ absurd (ground arith)
    | inl (parsed, known) ↦ elim (Result-cases (ops.validate parsed)) [
      | inr (lifetime_error text, late) ↦ inl (ground arith)
      | inr (other_error text, bad) ↦ absurd (ground arith)
      | inl (k, good) ↦ elim (Result-cases (valid_key_packages mls ops ins)) [
        | inr failed ↦ absurd (ground arith)
        | inl (rest, made) ↦ inr (k, rest, parsed, known, good, made, ground arith)
      ]
    ]
  ]

  IsValidated-cons :
      (bytes : Bytes) (ins : List Bytes) (k : ops.KeyPackage)
      → IsValidated ins k
      → IsValidated (bytes ∷ ins) k
  IsValidated-cons bytes ins k (b, i, p, known, good) = (b, Memᴰ.tail i, p, known, good)

  valid_key_packages-IsValidated :
      (ins : List Bytes) (ks : List ops.KeyPackage) (k : ops.KeyPackage)
      → valid_key_packages mls ops ins ≡ ok ks
      → Memᴰ k ks
      → IsValidated ins k
  unfolding valid_key_packages
  valid_key_packages-IsValidated [] ks k e i =
      let none_left : [] ≡ ks = ground arith in
      absurd (Memᴰ.not-nil (subst (λ l. Memᴰ k l) (sym none_left) i))
  valid_key_packages-IsValidated (bytes ∷ ins) ks k e i =
      elim (valid_key_packages-cons bytes ins ks e) [
        | inl same ↦ IsValidated-cons bytes ins k (valid_key_packages-IsValidated ins ks k same i)
        | inr (first, rest, parsed, known, good, made, split) ↦
            elim (Memᴰ.cases_cons (subst (λ l. Memᴰ k l) split i)) [
              | inl here ↦ (
                bytes,
                Memᴰ.head refl,
                parsed,
                known,
                subst (λ y. ops.validate parsed ≡ ok y) (sym here) good,
              )
              | inr later ↦
                  IsValidated-cons bytes ins k
                    (valid_key_packages-IsValidated ins rest k made later)
            ]
      ]

  -- A package and a member have no identity in common.
  check_admission_apart :
      (g : Group) (ins : List Bytes) (ks : List ops.KeyPackage) (k : ops.KeyPackage)
      (m : Member Credential) (id : Bytes)
      → check_admission mls ops g ins ≡ ok ks
      → Memᴰ k ks
      → Memᴰ m (ops.members g)
      → mls.basic_identity (ops.leaf_credential k) ≡ some id
      → mls.basic_identity m.credential ≢ some id
  unfolding check_admission
  check_admission_apart g ins ks k m id e i j known same =
      let absent : find_members_by_identity mls ops (ops.members g)
            (get_identity_from_key_packages mls ops ks)
          ≡ [] =
        ground arith in
      let free =
        has_identity-find_members_by_identity (ops.members g)
          (get_identity_from_key_packages mls ops ks) m absent j in
      let taken = contains_identity-get_identity ks k id known i in
      ground (arith, free, taken, same)

  check_admission_valid :
      (g : Group) (ins : List Bytes) (ks : List ops.KeyPackage)
      → check_admission mls ops g ins ≡ ok ks
      → (valid_key_packages mls ops ins ≡ ok ks) × (ks ≢ [])
  unfolding check_admission
  check_admission_valid g ins ks e = (ground arith, λ empty. ground arith)

  -- The packages that a call admits to a group.
  pub record IsAdmitted (g : Group) (ins : List Bytes) (ks : List ops.KeyPackage) : Type 0 where
    pub some_package : ks ≢ []
    pub validated : (k : ops.KeyPackage) → Memᴰ k ks → IsValidated ins k
    pub apart :
        (k : ops.KeyPackage) (m : Member Credential) (id : Bytes)
        → Memᴰ k ks
        → Memᴰ m (ops.members g)
        → mls.basic_identity (ops.leaf_credential k) ≡ some id
        → mls.basic_identity m.credential ≢ some id

  check_admission-IsAdmitted :
      (g : Group) (ins : List Bytes) (ks : List ops.KeyPackage)
      → check_admission mls ops g ins ≡ ok ks
      → IsAdmitted g ins ks
  check_admission-IsAdmitted g ins ks e =
      let (valid, filled) = check_admission_valid g ins ks e in
      record {
        some_package = filled;
        validated = λ k i. valid_key_packages-IsValidated ins ks k valid i;
        apart = λ k m id i j known. check_admission_apart g ins ks k m id e i j known;
      }

  -- If members are added, then by OpenMLS from packages that are not none at all, each of which was
  -- parsed from one of the byte strings and found valid, and no package has its basic identity in
  -- common with a member. The result has the tree hash of before and the epoch of after.
  pub add_members-IsAdmitted :
      (signer : ops.Signer) (ins : List Bytes) (g after : Group) (s s' : Store)
      (r : AddMembersResult)
      → add_members mls ops signer ins (g, s) ≡ (ok r, (after, s'))
      → (ks : List ops.KeyPackage) × IsAdmitted g ins ks
        × ((ops.add_members signer ks g s).1 ≡ after)
        × ((ops.add_members signer ks g s).2 ≡ s')
        × (r.pre_tree_hash ≡ mls.tree_hash g)
        × (r.current_epoch ≡ mls.epoch after)
  unfolding add_members
  add_members-IsAdmitted signer ins g after s s' r e =
      elim (Result-cases (check_admission mls ops g ins)) [
        | inr failed ↦ absurd (ground arith)
        | inl (ks, admitted) ↦ (
          ks,
          check_admission-IsAdmitted g ins ks admitted,
          ground arith,
          ground arith,
          ground arith,
          ground arith,
        )
      ]
