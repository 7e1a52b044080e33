-- ===== src/Mls/OpenMls.antt =====
-- The libraries under the MLS crates (openmls, rusqlite, serde_json, and the standard library's UTF-8
-- check): their types and functions as the fields of one record. A call that changes the group object
-- or the database gives both back, also beside an error. The errors are those that the crate's `From`
-- and `map_err` conversions make of the library's own.
use kchat_rust_sdk.Base.{ℕ, Bool, Option, List, Bytes, Result}
use kchat_rust_sdk.Mls.Error.{Text, Fallible}

-- `LoadOptimizeError`, with the message of the other cases.
pub data LoadError : Type 0 where
  missing_epoch_metadata : LoadError
  other : Text → LoadError

-- `Proposal` of crates/uq-openmls/src/core.rs.
pub data Proposal : Type 0 where
  add update remove pre_shared_key re_init external_init : Proposal
  group_context_extensions app_ack self_remove custom : Proposal

-- `Sender` of a staged proposal, as far as the code asks.
pub data Sender : Type 0 where
  member : ℕ → Sender
  outside : Sender

pub data Content (Staged Queued : Type 0) : Type 0 where
  staged_commit : Staged → Content Staged Queued
  proposal external_join_proposal : Queued → Content Staged Queued
  other_content : Content Staged Queued

pub record OpenMls : Type 1 where
  pub Group : Type 0
  pub Store : Type 0
  pub Credential : Type 0
  pub Staged : Type 0
  pub Queued : Type 0
  pub Protocol : Type 0
  pub Welcome : Type 0
  -- what a group shows
  pub epoch : Group → ℕ
  pub tree_hash : Group → Bytes
  pub own_leaf : Group → Option Credential
  pub members : Group → List Credential
  pub member_at : Group → ℕ → Option Credential
  -- `BasicCredential::try_from` and `identity`; `String::from_utf8`
  pub basic_identity : Credential → Option Bytes
  pub from_utf8 : Bytes → Option Text
  -- storage
  pub supports_epoch_secrets : Store → Bool
  pub load : Text → Store → Result Text (Option Group)
  pub load_optimize : Text → List ℕ → Store → Result LoadError (Option Group)
  pub begin : Store → Option Text
  pub commit : Store → Option Text
  -- group operations
  pub merge_pending_commit : Group → Store → Fallible (Unit {0}) × Group × Store
  pub clear_pending_commit : Group → Store → Result Text (Unit {0}) × Group × Store
  pub delete : Group → Store → Result Text (Unit {0}) × Group × Store
  pub parse_protocol : Bytes → Fallible Protocol
  pub parse_welcome : Bytes → Fallible (Option Welcome)
  pub join : Welcome → Store → Fallible Group × Store
  pub process_message : Group → Store → Protocol → Fallible (Content Staged Queued) × Group × Store
  pub merge_staged_commit : Group → Store → Staged → Fallible (Unit {0}) × Group × Store
  pub has_signer : Group → Store → Fallible (Unit {0})
  pub store_pending_proposal : Group → Store → Queued → Result Text (Unit {0}) × Group × Store
  pub commit_to_pending_proposals : Group → Store → Fallible (Unit {0}) × Group × Store
  pub proposal_kind : Queued → Proposal
  pub proposal_sender : Queued → Sender
