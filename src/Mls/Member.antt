-- ===== src/Mls/Member.antt =====
-- Member ids of crates/kchat-mls/src/lib.rs: `jid/fingerprint`.
pub mod Laws
use kchat_rust_sdk.Base.{
  ℕ, Bool, false, ◌||◌, Option, none, some, [], ◌∷◌, length, bytes_eq, ◌==◌, if◌then◌else◌,
}
use kchat_rust_sdk.Mls.Error.{Text}

-- `split_once('/')`
unfoldable pub split_once : ℕ → Text → Option (Text × Text)
split_once separator [] = none
split_once separator (x ∷ xs) =
    if x == separator then some ([], xs) else elim (split_once separator xs) [
      | none ↦ none
      | some (before, after) ↦ some (x ∷ before, after)
    ]

abbrev pub slash : ℕ
slash = b'/'

unfoldable pub sender_matches_member_id : Text → Text → Bool
sender_matches_member_id member_id sender =
    if length sender == 0
    then false
    else bytes_eq member_id sender || elim (split_once slash member_id) [
      | none ↦ false
      | some (jid, fingerprint) ↦ bytes_eq fingerprint sender
    ]

-- `id.find('/')`, and the text before it.
unfoldable pub extract_jid_from_member_id : Text → Option Text
extract_jid_from_member_id id = elim (split_once slash id) [
  | none ↦ none
  | some (jid, fingerprint) ↦ some jid
]

pub record MemberInfo : Type 0 where
  pub client_jid : Option Text
  pub mls_client_id : Option Text
  pub mls_fingerprint : Option Text
