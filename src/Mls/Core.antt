-- ===== src/Mls/Core.antt =====
-- The operations of crates/uq-openmls that message processing calls: core.rs, and the transactions of
-- provider/sqlite_provider.rs.
pub mod Transactions
use kchat_rust_sdk.Base.{
  ℕ, Bool, true, false, Option, none, some, List, [], Bytes, ok, err, ◌>>=◌, ◌>>◌, if◌then◌else◌,
  Result, or_fail,
}
use kchat_rust_sdk.Mls.Error.{
  Text, Error, Fallible, storage, sqlite, message, group_is_not_existed, invalid_welcome_message,
  invalid_operation_message, invalid_proposal_message,
}
use kchat_rust_sdk.Mls.OpenMls.{
  OpenMls, LoadError, missing_epoch_metadata, other, Proposal, Sender, member, outside, Content,
  staged_commit, proposal, external_join_proposal, other_content,
}

-- The group id and the epoch that the source returns with these are read by no caller in the crate, and
-- are not kept.
pub record QueuedProposal : Type 0 where
  pub kind : Proposal
  pub sender : Text

-- `map_err(|e| Error::Storage(e.to_string()))`
abbrev pub storage_err {ℓ} : {A : Type ℓ} → Result Text A → Fallible A
storage_err (ok a) = ok a
storage_err (err text) = err (storage text)

module _ (mls : OpenMls) where
  open mls use {Group, Store}

  -- A group method in a transaction: the group object and the store change together.
  abbrev pub GroupExec : Type 0 → Type 0
  GroupExec A = Group → Store → Fallible A × Group × Store

  unfoldable pub load_plain : Text → Store → Fallible Group
  load_plain group_id s = do
    found ← storage_err (mls.load group_id s)
    or_fail found group_is_not_existed

  -- `group`, called with no messages everywhere in crates/kchat-mls
  unfoldable pub group : Text → Store → Fallible Group
  group group_id s =
      if mls.supports_epoch_secrets s
      then elim (mls.load_optimize group_id [] s) [
        | ok found ↦ elim found [ some g ↦ ok g | none ↦ load_plain group_id s ]
        | err e ↦ elim e [
          | missing_epoch_metadata ↦ load_plain group_id s
          | other text ↦ err (storage text)
        ]
      ]
      else load_plain group_id s

  unfoldable pub group_with_epoch_message_secrets : Text → List ℕ → Store → Fallible Group
  group_with_epoch_message_secrets group_id epochs s = elim (mls.load_optimize group_id epochs s) [
    | ok found ↦ or_fail found group_is_not_existed
    | err e ↦ elim e [ missing_epoch_metadata ↦ group group_id s | other text ↦ err (storage text) ]
  ]

  unfoldable pub merge_pending_commit : GroupExec (Unit {0})
  merge_pending_commit g s = mls.merge_pending_commit g s

  unfoldable pub clear_pending_commit : GroupExec (Unit {0})
  clear_pending_commit g s =
      let (r, g', s') = mls.clear_pending_commit g s in (storage_err r, g', s')

  unfoldable pub delete_group : GroupExec (Unit {0})
  delete_group g s = let (r, g', s') = mls.delete g s in (storage_err r, g', s')

  unfoldable pub process_welcome : Bytes → Store → Fallible Group × Store
  process_welcome welcome s = elim (mls.parse_welcome welcome) [
    | err e ↦ (err e, s)
    | ok found ↦ elim found [ none ↦ (err invalid_welcome_message, s) | some w ↦ mls.join w s ]
  ]

  -- A proposal is stored and committed to. The commit and the group info that the source returns are
  -- dropped by the caller, and are not kept here; a failure to serialise them is one of the library's
  -- commit.
  unfoldable pub commit_proposal : mls.Queued → GroupExec (Unit {0})
  commit_proposal q g s = elim (mls.has_signer g s) [
    | err e ↦ (err e, g, s)
    | ok _ ↦
        let (r, g', s') = mls.store_pending_proposal g s q in
        elim r [
          | err text ↦ (err (storage text), g', s')
          | ok _ ↦ mls.commit_to_pending_proposals g' s'
        ]
  ]

  unfoldable pub process_content : Content mls.Staged mls.Queued → GroupExec (Unit {0})
  process_content (staged_commit c) g s = mls.merge_staged_commit g s c
  process_content (proposal q) g s = commit_proposal q g s
  process_content (external_join_proposal q) g s = commit_proposal q g s
  process_content other_content g s = (err invalid_operation_message, g, s)

  unfoldable pub process_operation_message : Bytes → GroupExec (Unit {0})
  process_operation_message blob g s = elim (mls.parse_protocol blob) [
    | err e ↦ (err e, g, s)
    | ok p ↦
        let (r, g', s') = mls.process_message g s p in
        elim r [ err e ↦ (err e, g', s') | ok content ↦ process_content content g' s' ]
  ]

  -- The sender's identity, if the sender is a member with a basic credential in UTF-8.
  unfoldable pub sender_identity : Group → Sender → Option Text
  sender_identity g outside = none
  sender_identity g (member leaf) = elim (mls.member_at g leaf) [
    | none ↦ none
    | some credential ↦ elim (mls.basic_identity credential) [
      | none ↦ none
      | some identity ↦ mls.from_utf8 identity
    ]
  ]

  unfoldable pub queued_proposal : Group → Content mls.Staged mls.Queued → Fallible QueuedProposal
  queued_proposal g (proposal q) = elim (sender_identity g (mls.proposal_sender q)) [
    | none ↦ err invalid_proposal_message
    | some identity ↦ ok (record { kind = mls.proposal_kind q; sender = identity })
  ]
  queued_proposal g _ = err invalid_proposal_message

  unfoldable pub process_proposal_message : Bytes → GroupExec QueuedProposal
  process_proposal_message blob g s = elim (mls.parse_protocol blob) [
    | err e ↦ (err e, g, s)
    | ok p ↦
        let (r, g', s') = mls.process_message g s p in
        elim r [ err e ↦ (err e, g', s') | ok content ↦ (queued_proposal g' content, g', s') ]
  ]

  -- `SqliteProvider::transaction`: what the closure did to the store is kept only if it succeeded and
  -- the commit did. The error is the text of the SQLite error that carries the closure's.
  unfoldable pub transaction :
      {A : Type 0} → (Store → Fallible A × Store) → Store → Result Text A × Store
  transaction f s = elim (mls.begin s) [
    | some text ↦ (err text, s)
    | none ↦
        let (r, s') = f s in
        elim r [
          | err e ↦ (err (message e), s)
          | ok a ↦ elim (mls.commit s') [ some text ↦ (err text, s) | none ↦ (ok a, s') ]
        ]
  ]

  -- The closures of crates/kchat-mls: the group is loaded, changed, and given back.
  unfoldable pub with_group : GroupExec (Unit {0}) → Text → Store → Fallible Group × Store
  with_group act group_id s = elim (group group_id s) [
    | err e ↦ (err e, s)
    | ok g ↦ let (r, g', s') = act g s in elim r [ err e ↦ (err e, s') | ok _ ↦ (ok g', s') ]
  ]

  -- `provider.transaction(…).map_err(|e| Error::Storage(e.to_string()))`
  unfoldable pub change_group : GroupExec (Unit {0}) → Text → Store → Fallible Group × Store
  change_group act group_id s =
      let (r, s') = transaction (with_group act group_id) s in (storage_err r, s')

  -- `SqliteProvider::load_group_with_epoch_message_secrets`: one read transaction.
  unfoldable pub load_group_with_epoch_message_secrets : Text → List ℕ → Store → Fallible Group
  load_group_with_epoch_message_secrets group_id epochs s = elim (mls.begin s) [
    | some text ↦ err (sqlite text)
    | none ↦ elim (mls.commit s) [
      | some text ↦ err (sqlite text)
      | none ↦ group_with_epoch_message_secrets group_id epochs s
    ]
  ]
