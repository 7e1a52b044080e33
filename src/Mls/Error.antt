-- ===== src/Mls/Error.antt =====
-- crates/uq-openmls/src/error.rs: the errors of the MLS crates, and their messages.
use kchat_rust_sdk.Base.{◌++◌, Bytes, codes, Result}

-- A `String`, by its UTF-8 bytes.
abbrev pub Text : Type 0
Text = Bytes

pub data Error : Type 0 where
  mls crypto key_package_new add_members merge_pending_commit new_group : Text → Error
  process_message merge_commit welcome protocol_message storage key_package_verify : Text → Error
  create_message export_group_info external_commit creation_from_external : Text → Error
  remove_members commit_to_pending_proposals leave_group update_leaf_node sqlite : Text → Error
  sqlite_migration external_commit_builder external_commit_builder_finalize : Text → Error
  create_commit re_add commit_builder_stage proposal : Text → Error
  invalid_operation_message invalid_welcome_message invalid_application_message : Error
  invalid_proposal_message invalid_group_info welcome_group_already_existed : Error
  group_is_not_existed export_group_info_invalid_export_type missing_ratchet_tree : Error
  credential_is_existed sqlite_not_found deserialize serialize : Error
  missing_own_leaf_node_in_group missing_signature_key_pair : Error
  some_members_already_existed_in_group : Error

abbrev pub Fallible {ℓ} : Type ℓ → Type ℓ
Fallible A = Result Error A

-- `to_string`
unfoldable pub message : Error → Text
message (mls text) = codes "MLS error: " ++ text
message (crypto text) = codes "Crypto error: " ++ text
message (key_package_new text) = codes "Key package new error: " ++ text
message (add_members text) = codes "Add members error: " ++ text
message (merge_pending_commit text) = codes "Merge pending commit error: " ++ text
message (new_group text) = codes "New group error: " ++ text
message (process_message text) = codes "Process message error: " ++ text
message (merge_commit text) = codes "Merge commit error: " ++ text
message invalid_operation_message = codes "Invalid operation message"
message invalid_welcome_message = codes "Invalid welcome message"
message invalid_application_message = codes "Invalid application message"
message invalid_proposal_message = codes "Invalid proposal message"
message invalid_group_info = codes "Invalid group info"
message (welcome text) = codes "Welcome error: " ++ text
message welcome_group_already_existed = codes "Welcome error: a group with the same id existed."
message (protocol_message text) = codes "Protocol message error: " ++ text
message (storage text) = codes "Storage error: " ++ text
message (key_package_verify text) = codes "Key package verify error: " ++ text
message group_is_not_existed = codes "Group is not existed"
message (create_message text) = codes "Create message error: " ++ text
message (export_group_info text) = codes "Export group info error: " ++ text
message export_group_info_invalid_export_type = codes "Export group info error: invalid export type"
message (external_commit text) = codes "External commit error: " ++ text
message (creation_from_external text) = codes "Creation from external error: " ++ text
message missing_ratchet_tree = codes "Missing ratchet tree error"
message credential_is_existed = codes "Credential is existed."
message (remove_members text) = codes "Remove members error: " ++ text
message (commit_to_pending_proposals text) = codes "Commit to pending proposals error: " ++ text
message (leave_group text) = codes "Leave group error: " ++ text
message (update_leaf_node text) = codes "Update leaf node error: " ++ text
message (sqlite text) = codes "Sqlite error: " ++ text
message sqlite_not_found = codes "Sqlite error: not found"
message (sqlite_migration text) = codes "Sqlite migration error: " ++ text
message deserialize = codes "Deserialize error"
message serialize = codes "Serialize error"
message missing_own_leaf_node_in_group = codes "Missing own leaf node in group"
message missing_signature_key_pair = codes "Missing signature key pair"
message some_members_already_existed_in_group = codes "Some members already existed in group"
message (external_commit_builder text) = codes "External commit builder error: " ++ text
message (external_commit_builder_finalize text) =
    codes "External commit builder finalize error: " ++ text
message (create_commit text) = codes "Create commit error: " ++ text
message (re_add text) = codes "Re-add error: " ++ text
message (commit_builder_stage text) = codes "Commit build stage error: " ++ text
message (proposal text) = codes "Proposal error: " ++ text
