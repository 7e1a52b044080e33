-- ===== src/Mls/Pending.antt =====
-- The desync check of `process_all_messages`, crates/kchat-mls/src/lib.rs: what becomes of a pending
-- commit, before the messages of a group are processed.
pub mod Decision
use kchat_rust_sdk.Base.{
  ℕ, Bool, true, false, not, ◌&&◌, Option, none, some, Bytes, bytes_eq, ok, err, ◌==◌,
  if◌then◌else◌,
}
use kchat_rust_sdk.Mls.Error.{Text, Error, Fallible}
use kchat_rust_sdk.Mls.Member.{sender_matches_member_id}
use kchat_rust_sdk.Mls.Status.{
  GroupPendingOperation, create_group, join_by_external_commit, leave_group, update_tree, idle,
  StatusDb, insert_or_update_group_status, delete_group_status,
}
use kchat_rust_sdk.Mls.Messages.{MlsMessage, AllMessagesOfGroup, is_zero, get_first_message}
use kchat_rust_sdk.Mls.OpenMls.{OpenMls}
use kchat_rust_sdk.Mls.Core.{
  GroupExec, change_group, merge_pending_commit, clear_pending_commit, delete_group,
}

-- The two databases: the key store of the MLS library and the status table.
pub record World (Store : Type 0) : Type 0 where
  pub store : Store
  pub status : StatusDb

-- The group as it is after the check, and whether it was deleted.
pub record Resolved (Group : Type 0) : Type 0 where
  pub group : Option Group
  pub deleted : Bool

abbrev pub is_create : GroupPendingOperation → Bool
is_create create_group = true
is_create _ = false

module _ (mls : OpenMls) where
  open mls use {Group, Store}

  -- An error ends `process_all_messages`, and what was done before it stays done.
  abbrev pub Act : Type 0 → Type 0
  Act A = World Store → Fallible A × World Store

  -- `let _ = insert_or_update_group_status(conn, group_id, None)`
  unfoldable pub set_idle : Text → World Store → World Store
  set_idle group_id w = record w {
    status = (insert_or_update_group_status group_id idle w.status).1;
  }

  -- A transaction that gives back the changed group.
  unfoldable pub replace_group : GroupExec mls (Unit {0}) → Text → Act (Resolved Group)
  replace_group act group_id w =
      let (r, s) = change_group mls act group_id w.store in
      let w' : World Store = record w { store = s } in
      elim r [ err e ↦ (err e, w') | ok g ↦ (ok (record { group = some g; deleted = false }), w') ]

  -- The group is deleted; the failure of the status deletion is ignored.
  unfoldable pub remove_group : Text → Act (Resolved Group)
  remove_group group_id w =
      let (r, s) = change_group mls (delete_group mls) group_id w.store in
      elim r [
        | err e ↦ (err e, record w { store = s })
        | ok _ ↦ (
          ok (record { group = none; deleted = true }),
          record { store = s; status = (delete_group_status group_id w.status).1 },
        )
      ]

  -- What follows a branch that did not fail.
  abbrev pub then_idle :
      Text → Fallible (Resolved Group) × World Store → Fallible (Resolved Group) × World Store
  then_idle group_id (r, w) = elim r [ err e ↦ (err e, w) | ok x ↦ (ok x, set_idle group_id w) ]

  unfoldable pub resolve_created : AllMessagesOfGroup → Group → Act (Resolved Group)
  resolve_created m g w =
      if is_zero m.pending_epoch
      then then_idle m.group_id (
          if bytes_eq (mls.tree_hash g) m.pending_tree_hash
          then replace_group (merge_pending_commit mls) m.group_id w
          else remove_group m.group_id w)
      else (ok (record { group = some g; deleted = false }), w)

  unfoldable pub resolve_joined :
      AllMessagesOfGroup → Text → Option MlsMessage → Act (Resolved Group)
  resolve_joined m own_id first w = then_idle m.group_id (elim first [
    | none ↦ remove_group m.group_id w
    | some msg ↦
        if not (sender_matches_member_id own_id msg.sender)
        then remove_group m.group_id w
        else replace_group (merge_pending_commit mls) m.group_id w
  ])

  unfoldable pub resolve_update :
      AllMessagesOfGroup → Text → Option MlsMessage → Act (Resolved Group)
  resolve_update m own_id first w = then_idle m.group_id (elim first [
    | none ↦ replace_group (clear_pending_commit mls) m.group_id w
    | some msg ↦
        if not (sender_matches_member_id own_id msg.sender)
        then replace_group (clear_pending_commit mls) m.group_id w
        else replace_group (merge_pending_commit mls) m.group_id w
  ])

  unfoldable pub resolve_create_or_join :
      GroupPendingOperation → AllMessagesOfGroup → Group → Text → Act (Resolved Group)
  resolve_create_or_join op m g own_id w =
      if is_create op && (mls.epoch g == 0)
      then resolve_created m g w
      else resolve_joined m own_id (get_first_message (mls.epoch g) m op) w

  unfoldable pub resolve :
      GroupPendingOperation → AllMessagesOfGroup → Group → Text → Act (Resolved Group)
  resolve create_group m g own_id w = resolve_create_or_join create_group m g own_id w
  resolve join_by_external_commit m g own_id w =
      resolve_create_or_join join_by_external_commit m g own_id w
  resolve update_tree m g own_id w =
      resolve_update m own_id (get_first_message (mls.epoch g) m update_tree) w
  resolve leave_group m g own_id w = (ok (record { group = some g; deleted = false }), w)
  resolve idle m g own_id w = (ok (record { group = some g; deleted = false }), w)
