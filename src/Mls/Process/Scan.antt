-- ===== src/Mls/Process/Scan.antt =====
-- The first pass over the messages of a group: which members the proposals ask to remove.
use kchat_rust_sdk.Base.{
  ℕ, Bool, true, false, ◌&&◌, Option, none, some, List, [], ◌∷◌, Bytes, bytes_eq, ltb, ok, err,
  if◌then◌else◌,
}
use kchat_rust_sdk.Mls.Error.{Text}
use kchat_rust_sdk.Mls.Member.{MemberInfo, extract_jid_from_member_id}
use kchat_rust_sdk.Mls.Status.{contains_text}
use kchat_rust_sdk.Mls.Messages.{
  MlsMessage, proposal, is_commit, CustomProposal, CustomProposalType, re_add, remove,
}
use kchat_rust_sdk.Mls.OpenMls.{OpenMls, Proposal}
use kchat_rust_sdk.Mls.Core.{QueuedProposal, process_proposal_message}

abbrev pub text_eq? : Option Text → Option Text → Bool
text_eq? none none = true
text_eq? none (some _) = false
text_eq? (some _) none = false
text_eq? (some a) (some b) = bytes_eq a b

-- The derived equality.
unfoldable pub same_member : MemberInfo → MemberInfo → Bool
same_member a b =
    text_eq? a.client_jid b.client_jid
    && text_eq? a.mls_client_id b.mls_client_id
    && text_eq? a.mls_fingerprint b.mls_fingerprint

-- `HashMap::insert`. The order of the map is not specified; here it is that of first insertion.
unfoldable pub insert_member : MemberInfo → ℕ → List (MemberInfo × ℕ) → List (MemberInfo × ℕ)
insert_member k v [] = (k, v) ∷ []
insert_member k v ((j, u) ∷ rest) =
    if same_member j k then (j, v) ∷ rest else (j, u) ∷ insert_member k v rest

pub record MemberSets : Type 0 where
  pub ids : List Text
  pub jids : List Text

abbrev pub is_remove_proposal : Proposal → Bool
is_remove_proposal Proposal.remove = true
is_remove_proposal _ = false

abbrev pub is_remove_type : CustomProposalType → Bool
is_remove_type remove = true
is_remove_type re_add = false

module _ (mls : OpenMls) where
  open mls use {Group, Store, Credential}

  unfoldable pub id_from_credential : Credential → Option Text
  id_from_credential credential = elim (mls.basic_identity credential) [
    | none ↦ none
    | some identity ↦ mls.from_utf8 identity
  ]

  unfoldable pub own_id_from_leaf_node : Group → Option Text
  own_id_from_leaf_node g = elim (mls.own_leaf g) [
    | none ↦ none
    | some credential ↦ id_from_credential credential
  ]

  abbrev pub add_jid : Option Text → List Text → List Text
  add_jid none jids = jids
  add_jid (some jid) jids = jid ∷ jids

  unfoldable pub collect_members : List Credential → MemberSets
  collect_members [] = record { ids = []; jids = [] }
  collect_members (c ∷ cs) =
      let rest = collect_members cs in
      elim (id_from_credential c) [
        | none ↦ rest
        | some id ↦ record {
          ids = id ∷ rest.ids;
          jids = add_jid (extract_jid_from_member_id id) rest.jids;
        }
      ]

  unfoldable pub collect_group_member_ids_and_jids : Group → MemberSets
  collect_group_member_ids_and_jids g = collect_members (mls.members g)

  -- The variables of the pass. The member sets are computed at their first use, and kept.
  pub record ScanState : Type 0 where
    pub group : Option Group
    pub store : Store
    pub to_remove : List (MemberInfo × ℕ)
    pub member_sets : Option MemberSets
    pub latest_epoch : ℕ

  abbrev pub sets_of : Option MemberSets → Group → MemberSets
  sets_of none g = collect_group_member_ids_and_jids g
  sets_of (some sets) g = sets

  unfoldable pub scan_remove : MlsMessage → QueuedProposal → Group → ScanState → ScanState
  scan_remove msg p g st =
      let sets = sets_of st.member_sets g in
      let st' : ScanState = record st { member_sets = some sets } in
      if contains_text p.sender sets.ids
      then record st' {
        to_remove =
            insert_member
              (record {
                client_jid = extract_jid_from_member_id p.sender;
                mls_client_id = some p.sender;
                mls_fingerprint = some msg.sender;
              })
              msg.epoch st.to_remove;
      }
      else st'

  unfoldable pub scan_custom_remove : MlsMessage → Text → Group → ScanState → ScanState
  scan_custom_remove msg jid g st =
      let sets = sets_of st.member_sets g in
      let st' : ScanState = record st { member_sets = some sets } in
      if contains_text jid sets.jids
      then record st' {
        to_remove =
            insert_member
              (record { client_jid = some jid; mls_client_id = none; mls_fingerprint = none })
              msg.epoch st.to_remove;
      }
      else st'

  module _ (from_json : Bytes → Option CustomProposal) where
    unfoldable pub scan_custom : MlsMessage → Group → ScanState → ScanState
    scan_custom msg g st = elim (from_json msg.blob) [
      | none ↦ st
      | some p ↦ elim p.client_jid [
        | none ↦ st
        | some jid ↦ if is_remove_type p.proposal_type then scan_custom_remove msg jid g st else st
      ]
    ]

    unfoldable pub scan_proposal : MlsMessage → Group → ScanState → ScanState
    scan_proposal msg g st =
        let (r, g', s') = process_proposal_message mls msg.blob g st.store in
        let st' : ScanState = record st { group = some g'; store = s' } in
        elim r [
          | ok p ↦ if is_remove_proposal p.kind then scan_remove msg p g' st' else st'
          | err _ ↦ scan_custom msg g' st'
        ]

    unfoldable pub scan_message : MlsMessage → ScanState → ScanState
    scan_message msg st =
        let st' : ScanState = record st {
          latest_epoch =
              if ltb st.latest_epoch msg.epoch && is_commit msg.message_type
              then msg.epoch
              else st.latest_epoch;
        } in
        elim msg.message_type [
          | proposal ↦ elim st.group [ none ↦ st' | some g ↦ scan_proposal msg g st' ]
          | _ ↦ st'
        ]

    unfoldable pub scan_messages : List MlsMessage → ScanState → ScanState
    scan_messages [] st = st
    scan_messages (m ∷ ms) st = scan_messages ms (scan_message m st)
