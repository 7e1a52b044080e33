-- ===== src/Examples/Processing.antt =====
-- Groups and their messages, processed.
use kchat_rust_sdk.Base.{
  ℕ, ◌≡◌, ◌≢◌, refl, true, false, none, some, [], ◌∷◌, codes, arith, bytes_eq, ok, err,
}
use kchat_rust_sdk.Mls.Error.{storage, message}
use kchat_rust_sdk.Mls.Member.{MemberInfo}
use kchat_rust_sdk.Mls.Status.{
  create_group, update_tree, op_none, operation_of_text, text_of_operation, get_row, upsert_row,
  delete_rows, insert_or_update_group_status, delete_group_status, get_group_pending_operation,
}
use kchat_rust_sdk.Mls.Messages.{
  MlsMessage, AllMessagesOfGroup, pos, commit, first_epoch, find_commit, get_first_message,
}
use kchat_rust_sdk.Mls.Core.{
  change_group, transaction, with_group, group, clear_pending_commit, delete_group,
  group_with_epoch_message_secrets, load_group_with_epoch_message_secrets,
  process_operation_message, process_content,
}
use kchat_rust_sdk.Mls.Pending.{
  World, resolve, resolve_create_or_join, resolve_created, resolve_update, replace_group,
  remove_group, set_idle,
}
use kchat_rust_sdk.Mls.Pending.Decision.{
  keep, decide, perform, resolve-eq-perform, resolve_error, resolve_idle,
}
use kchat_rust_sdk.Mls.Process.Scan.{
  ScanState, own_id_from_leaf_node, id_from_credential, scan_messages,
}
use kchat_rust_sdk.Mls.Process.Apply.{
  GroupError, storage_error, ApplyState, contains, convert_to_error_code, is_fatal, commit_log,
  load_for_commit, fail_if_fatal, operate, apply_operation, apply_commit, apply_message,
  apply_messages,
}
use kchat_rust_sdk.Mls.Process.Invariants.{apply_messages_error}
use kchat_rust_sdk.Mls.Process.{
  ProcessAllMessagesResult, preload_epochs, check_pending, run_messages, process_group,
  process_groups, process_all_messages,
}
use kchat_rust_sdk.Mls.Process.Report.{Reports, group_ids, reported, process_all_messages-Reports}
use kchat_rust_sdk.Examples.Groups.{mls, from_json, own, status}

clearing :
    (change_group mls (clear_pending_commit mls) (codes "g") 3).0
    ≡ err (storage (codes "Storage error: busy"))
unfolding change_group transaction with_group group clear_pending_commit message
clearing = refl

abbrev pub own_commit : MlsMessage
own_commit = record { blob = 1 ∷ []; epoch = 4; sender = codes "f1"; message_type = commit }

abbrev pub messages_of_group : AllMessagesOfGroup
messages_of_group = record {
  group_id = codes "g";
  messages = own_commit ∷ [];
  current_epoch = pos 4;
  current_tree_hash = [];
  pending_epoch = pos 0;
  pending_tree_hash = 9 ∷ [];
}

abbrev pub world : World ℕ
world = record { store = 3; status = status }

resolve-eq-perform_example :
    resolve mls update_tree messages_of_group 3 own world
    ≡ perform mls (decide mls update_tree messages_of_group 3 own) messages_of_group 3 world
resolve-eq-perform_example = resolve-eq-perform mls update_tree messages_of_group 3 own world

clear_failed :
    (resolve mls update_tree messages_of_group 2 own world).0
    ≡ err (storage (codes "Storage error: busy"))
unfolding resolve resolve_update get_first_message find_commit first_epoch replace_group
    change_group transaction with_group group clear_pending_commit message
clear_failed = refl

resolve_error_example : (resolve mls update_tree messages_of_group 2 own world).1 ≡ world
resolve_error_example =
    resolve_error mls update_tree messages_of_group 2 own world
      (storage (codes "Storage error: busy")) clear_failed

not_kept : decide mls create_group messages_of_group 0 own ≢ keep
unfolding bytes_eq get_first_message find_commit first_epoch
not_kept e = ground arith

removed :
    (resolve mls create_group messages_of_group 0 own world).0
    ≡ ok (record { group = none; deleted = true })
unfolding resolve resolve_create_or_join resolve_created remove_group change_group transaction
    with_group group delete_group bytes_eq
removed = refl

resolve_idle_example :
    get_row (codes "g") (resolve mls create_group messages_of_group 0 own world).1.status.rows
    ≡ some op_none
resolve_idle_example =
    resolve_idle mls create_group messages_of_group 0 own world
      (record { group = none; deleted = true }) not_kept refl removed

abbrev pub start : ScanState mls
start = record { group = some 3; store = 3; to_remove = []; member_sets = none; latest_epoch = 0 }

abbrev pub bob : MemberInfo
bob = record {
  client_jid = some (codes "bob");
  mls_client_id = some (codes "bob/f2");
  mls_fingerprint = some (codes "f2");
}

abbrev pub ready : ApplyState mls from_json
ready = record {
  group = some 3;
  store = 3;
  loaded = false;
  to_remove = (bob, 3) ∷ [];
  to_readd = [];
  error = none;
}

abbrev pub locked : GroupError
locked = record {
  error_code = storage_error;
  error_message =
      codes
        "process commit error, group g: Process message error: Storage error: database is locked";
}

commit_failed :
    (apply_messages mls from_json (codes "g") 4 (own_commit ∷ []) ready).error ≡ some locked
unfolding apply_messages apply_message apply_commit load_for_commit
    load_group_with_epoch_message_secrets group_with_epoch_message_secrets apply_operation operate
    transaction process_operation_message process_content fail_if_fatal is_fatal contains bytes_eq
    commit_log message convert_to_error_code
commit_failed = refl

apply_messages_error_example :
    (apply_messages mls from_json (codes "g") 4 (own_commit ∷ []) ready).to_remove ≡ []
apply_messages_error_example =
    apply_messages_error mls from_json (codes "g") 4 (own_commit ∷ []) ready locked refl
      commit_failed

abbrev pub quiet_group : AllMessagesOfGroup
quiet_group = record messages_of_group { group_id = codes "h"; messages = [] }

abbrev pub new_world : World ℕ
new_world = record { store = 0; status = status }

abbrev pub report : ProcessAllMessagesResult
report = record {
  group_results =
      record { group_id = codes "g"; members_to_remove = []; members_to_readd = []; error = none }
      ∷ record { group_id = codes "h"; members_to_remove = []; members_to_readd = []; error = none }
      ∷ [];
  deleted_groups = codes "g" ∷ [];
}

abbrev pub created_group : AllMessagesOfGroup
created_group = record messages_of_group { messages = [] }

processed :
    (process_all_messages mls from_json (created_group ∷ quiet_group ∷ []) new_world).0 ≡ ok report
unfolding process_all_messages process_groups process_group preload_epochs
    load_group_with_epoch_message_secrets group_with_epoch_message_secrets check_pending
    own_id_from_leaf_node id_from_credential get_group_pending_operation operation_of_text get_row
    bytes_eq resolve resolve_create_or_join resolve_created remove_group change_group transaction
    with_group group delete_group set_idle insert_or_update_group_status delete_group_status
    upsert_row delete_rows text_of_operation run_messages scan_messages apply_messages
processed = refl

process_all_messages-Reports_example :
    Reports
      (group_ids (created_group ∷ quiet_group ∷ []))
      (reported report.group_results)
      report.deleted_groups
process_all_messages-Reports_example =
    process_all_messages-Reports mls from_json (created_group ∷ quiet_group ∷ []) report new_world
      processed
