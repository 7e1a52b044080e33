-- ===== src/Mls/Membership/Readmission.antt =====
-- Who stays in a group while others are added again.
use kchat_rust_sdk.Base.{
  ℕ, ◌≡◌, ◌≢◌, ◌↔◌, true, List, [], ◌∷◌, Bytes, Bool-cases, arith, ok, Result-cases, subst, ◌∙◌,
  inl, inr,
}
use mathlib.Core.List.{Memᴰ}
use kchat_rust_sdk.Mls.OpenMls.{OpenMls}
use kchat_rust_sdk.Mls.Membership.{
  Membership, Member, ReAddResult, contains_index, indices_of, partition_without, all_key_packages,
}
use kchat_rust_sdk.Mls.Membership.Indices.{
  IsNamed, mem_of_contains_index, contains_index-Memᴰ, indices-IsNamedIndex, IsNamedIndex-indices,
  partition_without-IsKept, IsKept-partition_without,
}
use kchat_rust_sdk.Mls.Membership.Operations.{readd}

module _ (mls : OpenMls) (ops : Membership mls) where
  open mls use {Group, Store, Credential}

  -- The indices of the members that stay: those of members, but none that a named member has.
  abbrev pub IsPartition : Group → List Bytes → List ℕ → Type 0
  IsPartition g ids stay =
      (i : ℕ)
      → Memᴰ i stay ↔ (
          (m : Member Credential) × Memᴰ m (ops.members g)
          × (m.index ≡ i)
          × ((n : Member Credential)
              → Memᴰ n (ops.members g)
              → IsNamed mls ops ids n
              → n.index ≢ i))

  partition_without-IsPartition :
      (g : Group) (ids : List Bytes)
      → IsPartition g ids (partition_without mls ops (indices_of mls ops g ids) (ops.members g))
  partition_without-IsPartition g ids i =
      let js = indices_of mls ops g ids in
      (
        λ h.
            let (m, k, at, out) = partition_without-IsKept mls ops js (ops.members g) i h in
            (
              m,
              k,
              at,
              λ n l named same.
                  let inside =
                    contains_index-Memᴰ js n.index
                      (IsNamedIndex-indices mls ops (ops.members g) ids n l named) in
                  let inside' : contains_index js i ≡ true =
                    subst (λ k. contains_index js k ≡ true) same inside in
                  cc,
            ),
        λ (m, k, at, apart).
            subst (λ k. Memᴰ k (partition_without mls ops js (ops.members g))) at
              (elim (Bool-cases (contains_index js m.index)) [
                | inl inside ↦
                    let (n, l, named, same) =
                      indices-IsNamedIndex mls ops (ops.members g) ids m.index
                        (mem_of_contains_index js m.index inside) in
                    absurd (apart n l named (same ∙ at))
                | inr out ↦ IsKept-partition_without mls ops js (ops.members g) m k out
              ]),
      )

  -- Each byte string was parsed and is a valid package, and none was left out.
  pub data AllValidated : List Bytes → List ops.KeyPackage → Type 0 where
    nil : AllValidated [] []
    cons :
        {bytes : Bytes} {ins : List Bytes} {k : ops.KeyPackage} {ks : List ops.KeyPackage}
        (parsed : ops.KeyPackageIn)
        → ops.parse_key_package bytes ≡ ok parsed
        → ops.validate parsed ≡ ok k
        → AllValidated ins ks
        → AllValidated (bytes ∷ ins) (k ∷ ks)

  all_key_packages-AllValidated :
      (ins : List Bytes) (ks : List ops.KeyPackage)
      → all_key_packages mls ops ins ≡ ok ks
      → AllValidated ins ks
  unfolding all_key_packages
  all_key_packages-AllValidated [] ks e = subst (λ l. AllValidated [] l) (ground arith) nil
  all_key_packages-AllValidated (bytes ∷ ins) ks e =
      elim (Result-cases (ops.parse_key_package bytes)) [
        | inr failed ↦ absurd (ground arith)
        | inl (parsed, known) ↦ elim (Result-cases (ops.validate parsed)) [
          | inr failed ↦ absurd (ground arith)
          | inl (k, good) ↦ elim (Result-cases (all_key_packages mls ops ins)) [
            | inr failed ↦ absurd (ground arith)
            | inl (rest, made) ↦
                subst (λ l. AllValidated (bytes ∷ ins) l) (ground arith)
                  (cons parsed known good (all_key_packages-AllValidated ins rest made))
          ]
        ]
      ]

  -- If members are added again, then the fork was recovered with the indices of exactly those members
  -- that stay (a member's index, but not that of a member whose basic identity is one of the ids), and
  -- the commit was staged with one valid package for each byte string, in order, none left out. The
  -- result has the tree hash of before and the epoch of after.
  pub readd-IsPartition :
      (signer : ops.Signer) (ids ins : List Bytes) (g after : Group) (s s' : Store)
      (r : ReAddResult)
      → readd mls ops signer ids ins (g, s) ≡ (ok r, (after, s'))
      → (stay : List ℕ) × (builder : ops.Builder) × (ks : List ops.KeyPackage) × IsPartition g ids
          stay
        × (ops.recover_fork_by_readding g stay ≡ ok builder)
        × AllValidated ins ks
        × ((ops.stage_readd builder ks signer g s).1 ≡ after)
        × ((ops.stage_readd builder ks signer g s).2 ≡ s')
        × (r.pre_tree_hash ≡ mls.tree_hash g)
        × (r.current_epoch ≡ mls.epoch after)
  unfolding readd
  readd-IsPartition signer ids ins g after s s' r e =
      let stay = partition_without mls ops (indices_of mls ops g ids) (ops.members g) in
      elim (Result-cases (ops.recover_fork_by_readding g stay)) [
        | inr failed ↦ absurd (ground arith)
        | inl (builder, recovered) ↦ elim (Result-cases (all_key_packages mls ops ins)) [
          | inr failed ↦ absurd (ground arith)
          | inl (ks, made) ↦ (
            stay,
            builder,
            ks,
            partition_without-IsPartition g ids,
            recovered,
            all_key_packages-AllValidated ins ks made,
            ground arith,
            ground arith,
            ground arith,
            ground arith,
          )
        ]
      ]
