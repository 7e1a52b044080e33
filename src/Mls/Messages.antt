-- ===== src/Mls/Messages.antt =====
-- The messages that crates/kchat-mls/src/lib.rs processes, and what it looks for in them.
use kchat_rust_sdk.Base.{
  ℕ, ◌+◌, ◌-◌, ◌%◌, Bool, true, false, ◌&&◌, Option, none, some, List, [], ◌∷◌, Bytes, codes,
  bytes_eq, ◌==◌, if◌then◌else◌,
}
use kchat_rust_sdk.Mls.Error.{Text}
use kchat_rust_sdk.Mls.Status.{GroupPendingOperation, join_by_external_commit}

pub data MessageType : Type 0 where
  welcome commit proposal unknown : MessageType

unfoldable pub message_type_of_text : Text → MessageType
message_type_of_text value =
    if bytes_eq value (codes "MLS_MESSAGE_TYPE_WELCOME")
    then welcome
    else if bytes_eq value (codes "MLS_MESSAGE_TYPE_COMMIT")
    then commit
    else if bytes_eq value (codes "MLS_MESSAGE_TYPE_PROPOSAL")
    then proposal
    else unknown

abbrev pub is_commit : MessageType → Bool
is_commit commit = true
is_commit _ = false

pub record MlsMessage : Type 0 where
  pub blob : Bytes
  pub epoch : ℕ
  pub sender : Text
  pub message_type : MessageType

-- An `i64`: `negsuc n` is -(n + 1).
pub data ℤ : Type 0 where
  pos : ℕ → ℤ
  negsuc : ℕ → ℤ

abbrev pub is_zero : ℤ → Bool
is_zero (pos n) = n == 0
is_zero (negsuc n) = false

pub record AllMessagesOfGroup : Type 0 where
  pub group_id : Text
  pub messages : List MlsMessage
  pub current_epoch : ℤ
  pub current_tree_hash : Bytes
  pub pending_epoch : ℤ
  pub pending_tree_hash : Bytes

pub data CustomProposalType : Type 0 where
  re_add remove : CustomProposalType

pub record CustomProposal : Type 0 where
  pub client_jid : Option Text
  pub mls_client_id : Option Text
  pub mls_fingerprint : Option Text
  pub epoch : Option ℕ
  pub group_id : Text
  pub proposal_type : CustomProposalType

abbrev pub u64_mod : ℕ
u64_mod = 18446744073709551616

abbrev pub is_join : GroupPendingOperation → Bool
is_join join_by_external_commit = true
is_join _ = false

-- The epoch after the one from which the search starts, with the wrap-around of a release build.
unfoldable pub first_epoch : ℕ → GroupPendingOperation → ℕ
first_epoch group_epoch op =
    let start = if is_join op then (group_epoch + (u64_mod - 1)) % u64_mod else group_epoch in
    (start + 1) % u64_mod

unfoldable pub find_commit : ℕ → List MlsMessage → Option MlsMessage
find_commit epoch [] = none
find_commit epoch (m ∷ ms) =
    if m.epoch == epoch && is_commit m.message_type then some m else find_commit epoch ms

unfoldable pub get_first_message :
    ℕ → AllMessagesOfGroup → GroupPendingOperation → Option MlsMessage
get_first_message group_epoch messages_of_group op =
    find_commit (first_epoch group_epoch op) messages_of_group.messages
