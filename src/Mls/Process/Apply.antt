-- ===== src/Mls/Process/Apply.antt =====
-- The second pass: welcomes, commits and re-add proposals, in the order of the messages.
use kchat_rust_sdk.Base.{
  ℕ, Bool, true, false, not, ◌&&◌, ◌||◌, Option, none, some, List, [], ◌∷◌, ◌++◌, Bytes, codes,
  bytes_eq, take, length, ◌==◌, ltb, leb, ok, err, if◌then◌else◌,
}
use kchat_rust_sdk.Mls.Error.{Text, Error, Fallible, message, process_message}
use kchat_rust_sdk.Mls.Member.{MemberInfo, extract_jid_from_member_id}
use kchat_rust_sdk.Mls.Status.{contains_text}
use kchat_rust_sdk.Mls.Messages.{
  MlsMessage, welcome, commit, proposal, unknown, CustomProposal, CustomProposalType, re_add,
  remove,
}
use kchat_rust_sdk.Mls.OpenMls.{OpenMls}
use kchat_rust_sdk.Mls.Core.{
  process_welcome, process_operation_message, transaction, load_group_with_epoch_message_secrets,
}
use kchat_rust_sdk.Mls.Process.Scan.{MemberSets, same_member, collect_group_member_ids_and_jids}

pub data GroupErrorCode : Type 0 where
  storage_error aead process_commit : GroupErrorCode

pub record GroupError : Type 0 where
  pub error_code : GroupErrorCode
  pub error_message : Text

-- `str::contains`
unfoldable pub contains : Text → Text → Bool
contains needle [] = length needle == 0
contains needle (x ∷ xs) = bytes_eq (take (length needle) (x ∷ xs)) needle || contains needle xs

unfoldable pub convert_to_error_code : Error → GroupErrorCode
convert_to_error_code e =
    if contains (codes "An error occurred during AEAD decryption.") (message e)
    then aead
    else if contains (codes "Storage error") (message e)
    then storage_error
    else process_commit

-- The messages that end the pass.
unfoldable pub is_fatal : Text → Bool
is_fatal log =
    contains (codes "Error writing updated group data to storage") log
    || contains (codes "database is locked") log
    || contains (codes "Error interacting with storage") log

abbrev pub is_re_add : CustomProposalType → Bool
is_re_add re_add = true
is_re_add remove = false

unfoldable pub load_log : Text → Error → Text
load_log group_id e =
    codes "process commit - load group data error, group "
    ++ (group_id ++ (codes ": " ++ message e))

unfoldable pub commit_log : Text → Error → Text
commit_log group_id e =
    codes "process commit error, group " ++ (group_id ++ (codes ": " ++ message e))

-- A member is dropped once a commit of the proposal's epoch or a later one has left it out of the
-- group.
unfoldable pub is_removed : ℕ → MemberSets → MemberInfo × ℕ → Bool
is_removed epoch sets (info, proposed) = elim info.mls_client_id [
  | some id ↦ leb proposed epoch && not (contains_text id sets.ids)
  | none ↦ elim info.client_jid [
    | some jid ↦ leb proposed epoch && not (contains_text jid sets.jids)
    | none ↦ false
  ]
]

unfoldable pub drop_removed : ℕ → MemberSets → List (MemberInfo × ℕ) → List (MemberInfo × ℕ)
drop_removed epoch sets [] = []
drop_removed epoch sets (x ∷ xs) =
    let rest = drop_removed epoch sets xs in if is_removed epoch sets x then rest else x ∷ rest

-- `HashSet::insert`
unfoldable pub add_member : MemberInfo → List MemberInfo → List MemberInfo
add_member m [] = m ∷ []
add_member m (x ∷ xs) = if same_member x m then x ∷ xs else x ∷ add_member m xs

unfoldable pub readd_info : CustomProposal → Text → MemberInfo
readd_info p sender = record {
  client_jid = elim p.client_jid [
    | some jid ↦ some jid
    | none ↦ elim p.mls_client_id [ some id ↦ extract_jid_from_member_id id | none ↦ none ]
  ];
  mls_client_id = p.mls_client_id;
  mls_fingerprint = some sender;
}

module _ (mls : OpenMls) (from_json : Bytes → Option CustomProposal) where
  open mls use {Group, Store}

  -- The variables of the pass; an error is what ended it.
  pub record ApplyState : Type 0 where
    pub group : Option Group
    pub store : Store
    pub loaded : Bool
    pub to_remove : List (MemberInfo × ℕ)
    pub to_readd : List MemberInfo
    pub error : Option GroupError

  unfoldable pub apply_welcome : MlsMessage → ApplyState → ApplyState
  apply_welcome msg st =
      let (r, s) = transaction mls (process_welcome mls msg.blob) st.store in
      elim r [ ok g ↦ record st { group = some g; store = s } | err _ ↦ record st { store = s } ]

  -- The error is kept and the pass ends, if the log line is fatal.
  unfoldable pub fail_if_fatal : Text → Error → ApplyState → ApplyState
  fail_if_fatal log e st =
      if is_fatal log
      then record st {
        error = some (record { error_code = convert_to_error_code e; error_message = log });
        to_remove = [];
      }
      else st

  -- The group is loaded afresh before the first commit.
  unfoldable pub load_for_commit : Text → MlsMessage → ApplyState → ApplyState
  load_for_commit group_id msg st =
      if st.loaded
      then st
      else elim (load_group_with_epoch_message_secrets mls group_id (msg.epoch ∷ []) st.store) [
        | ok g ↦ record st { group = some g; loaded = true }
        | err e ↦ fail_if_fatal (load_log group_id e) e st
      ]

  -- `process_operation_message` in a transaction: the store is rolled back on failure, the group
  -- object is not.
  unfoldable pub operate : Bytes → Group → Store → Fallible (Unit {0}) × Group × Store
  operate blob g s =
      let (r, s') =
        transaction mls (λ t. let (x, g', t') = process_operation_message mls blob g t in (x, t'))
          s in
      let (x, g', t') = process_operation_message mls blob g s in
      elim (mls.begin s) [
        | some text ↦ (err (process_message text), g, s')
        | none ↦ elim r [ ok _ ↦ (ok tt, g', s') | err text ↦ (err (process_message text), g', s') ]
      ]

  unfoldable pub apply_operation : Text → MlsMessage → Group → ApplyState → ApplyState
  apply_operation group_id msg g st =
      let (r, g', s) = operate msg.blob g st.store in
      let st' : ApplyState = record st { group = some g'; store = s } in
      elim r [ ok _ ↦ st' | err e ↦ fail_if_fatal (commit_log group_id e) e st' ]

  unfoldable pub drop_already_removed : MlsMessage → ApplyState → ApplyState
  drop_already_removed msg st = elim st.group [
    | none ↦ st
    | some g ↦ record st {
      to_remove = drop_removed msg.epoch (collect_group_member_ids_and_jids mls g) st.to_remove;
    }
  ]

  abbrev pub unless_failed : (ApplyState → ApplyState) → ApplyState → ApplyState
  unless_failed f st = elim st.error [ some _ ↦ st | none ↦ f st ]

  abbrev pub with_current : (Group → ApplyState → ApplyState) → ApplyState → ApplyState
  with_current f st = elim st.group [ none ↦ st | some g ↦ f g st ]

  unfoldable pub apply_commit : Text → MlsMessage → ApplyState → ApplyState
  apply_commit group_id msg st = unless_failed (drop_already_removed msg) (
      with_current
        (λ _ st₁.
          unless_failed (with_current (apply_operation group_id msg))
            (load_for_commit group_id msg st₁))
        st)

  unfoldable pub apply_proposal : ℕ → MlsMessage → ApplyState → ApplyState
  apply_proposal latest_epoch msg st = elim (from_json msg.blob) [
    | none ↦ st
    | some p ↦
        if is_re_add p.proposal_type && ltb latest_epoch msg.epoch
        then record st { to_readd = add_member (readd_info p msg.sender) st.to_readd }
        else st
  ]

  unfoldable pub apply_message : Text → ℕ → MlsMessage → ApplyState → ApplyState
  apply_message group_id latest_epoch msg st = elim msg.message_type [
    | welcome ↦ apply_welcome msg st
    | commit ↦ apply_commit group_id msg st
    | proposal ↦ apply_proposal latest_epoch msg st
    | unknown ↦ st
  ]

  -- `break 'process_operation`: nothing follows an error.
  unfoldable pub apply_messages : Text → ℕ → List MlsMessage → ApplyState → ApplyState
  apply_messages group_id latest_epoch [] st = st
  apply_messages group_id latest_epoch (m ∷ ms) st =
      let rest =
        apply_messages group_id latest_epoch ms (apply_message group_id latest_epoch m st) in
      elim st.error [ some _ ↦ st | none ↦ rest ]
