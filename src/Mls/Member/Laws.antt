-- ===== src/Mls/Member/Laws.antt =====
-- What a sender of a message has to be to count as a member.
use kchat_rust_sdk.Base.{
  ℕ, ◌≡◌, ◌≢◌, ◌↔◌, ◌⊎◌, inl, inr, ap, true, some, [], ◌∷◌, ◌++◌, arith, length, bytes_eq,
  eq_of_bytes_eq, bytes_eq_refl, Option-cases, Bool-cases, subst, length-eq_zero,
}
use kchat_rust_sdk.Mls.Error.{Text}
use kchat_rust_sdk.Mls.Member.{
  split_once, slash, sender_matches_member_id, extract_jid_from_member_id,
}

-- No occurrence of a byte.
abbrev pub Lacks : ℕ → Text → Type 0
Lacks c [] = Unit {0}
Lacks c (x ∷ xs) = (x ≢ c) × Lacks c xs

split_once-append :
    (c : ℕ) (before after : Text)
    → Lacks c before
    → split_once c (before ++ (c ∷ after)) ≡ some (before, after)
unfolding split_once
split_once-append c [] after h = ground arith
split_once-append c (x ∷ xs) after h = ground (arith, split_once-append c xs after h.1)

split_once-eq-some :
    (c : ℕ) (s before after : Text)
    → split_once c s ≡ some (before, after)
    → (s ≡ before ++ (c ∷ after)) × Lacks c before
unfolding split_once
split_once-eq-some c [] before after h = cc
split_once-eq-some c (x ∷ xs) [] after h = ground arith
split_once-eq-some c (x ∷ xs) (y ∷ before) after h =
    ground (arith, split_once-eq-some c xs before after)

-- A sender matches a member id exactly if it is not empty and is the id itself or the whole part
-- behind the first slash.
pub sender_matches_member_id_iff :
    (id sender : Text)
    → (sender_matches_member_id id sender ≡ true) ↔ (
        (sender ≢ [])
        × ((id ≡ sender) ⊎ ((jid : Text) × Lacks slash jid × (id ≡ jid ++ (slash ∷ sender)))))
unfolding sender_matches_member_id
sender_matches_member_id_iff id sender = (
  λ h. (
    λ e. ground (arith, ap length e),
    elim (Bool-cases (bytes_eq id sender)) [
      | inl same ↦ inl (eq_of_bytes_eq id sender same)
      | inr other ↦ elim (Option-cases (split_once slash id)) [
        | inl n ↦ absurd (ground arith)
        | inr ((jid, fingerprint), s) ↦
            let same : fingerprint ≡ sender = ground (arith, eq_of_bytes_eq fingerprint sender) in
            let (whole, lacks) = split_once-eq-some slash id jid fingerprint s in
            inr (jid, lacks, rw (← same) whole)
      ]
    ],
  ),
  λ (full, cases). elim cases [
    | inl e ↦ ground (arith, bytes_eq_refl sender, length-eq_zero sender)
    | inr (jid, lacks, e) ↦ ground (
      arith,
      split_once-append slash jid sender lacks,
      bytes_eq_refl sender,
      length-eq_zero sender,
    )
  ],
)

-- The jid of a member id is the part before its first slash, and an id without a slash has none.
pub extract_jid_from_member_id_iff :
    (id jid : Text)
    → (extract_jid_from_member_id id ≡ some jid)
      ↔ (Lacks slash jid × ((fingerprint : Text) × (id ≡ jid ++ (slash ∷ fingerprint))))
unfolding extract_jid_from_member_id
extract_jid_from_member_id_iff id jid = (
  λ h. elim (Option-cases (split_once slash id)) [
    | inl n ↦ absurd (ground arith)
    | inr ((before, after), s) ↦
        let same : before ≡ jid = ground arith in
        let (whole, lacks) = split_once-eq-some slash id before after s in
        (subst (Lacks slash) same lacks, (after, rw (← same) whole))
  ],
  λ (lacks, (fingerprint, e)). ground (arith, split_once-append slash jid fingerprint lacks),
)
