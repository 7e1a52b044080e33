-- ===== src/Mls/Pending/Decision.antt =====
-- The check as a decision table, and what it does to the two databases.
use kchat_rust_sdk.Base.{
  ℕ, ◌≡◌, ◌≢◌, refl, Bool, true, false, Option, none, some, [], arith, ◌↔◌, bytes_eq, ok, err, ◌==◌,
  if◌then◌else◌, bytes_eq_refl, ◌<◌, ◌+◌,
}
use kchat_rust_sdk.Mls.Error.{Text, Error}
use kchat_rust_sdk.Mls.Member.{sender_matches_member_id}
use kchat_rust_sdk.Mls.Status.{
  GroupPendingOperation, create_group, join_by_external_commit, leave_group, update_tree, idle,
  get_row, op_none, insert_or_update_group_status, delete_group_status, text_of_operation,
  delete_rows,
}
use kchat_rust_sdk.Mls.Status.Laws.{get_row-upsert_row}
use kchat_rust_sdk.Mls.Messages.{
  MlsMessage, AllMessagesOfGroup, is_zero, is_join, first_epoch, get_first_message, u64_mod,
}
use kchat_rust_sdk.Mls.OpenMls.{OpenMls}
use kchat_rust_sdk.Mls.Core.{GroupExec, merge_pending_commit, clear_pending_commit, delete_group}
use kchat_rust_sdk.Mls.Core.Transactions.{change_group_atomic}
use kchat_rust_sdk.Mls.Pending.{
  World, Resolved, Act, set_idle, replace_group, remove_group, resolve_created, resolve_joined,
  resolve_update, resolve_create_or_join, resolve, then_idle,
}

-- What becomes of the pending commit.
pub data Decision : Type 0 where
  keep merge clear remove : Decision

-- The server accepted the own commit: the first commit of the expected epoch is by this client.
abbrev pub is_own : Text → Option MlsMessage → Bool
is_own own_id none = false
is_own own_id (some msg) = sender_matches_member_id own_id msg.sender

module _ (mls : OpenMls) where
  open mls use {Group, Store}

  abbrev pub decide : GroupPendingOperation → AllMessagesOfGroup → Group → Text → Decision
  decide op m g own_id =
      let accepted = is_own own_id (get_first_message (mls.epoch g) m op) in
      elim op [
        | create_group ↦
            if mls.epoch g == 0
            then if is_zero m.pending_epoch
              then if bytes_eq (mls.tree_hash g) m.pending_tree_hash then merge else remove
              else keep
            else if accepted
            then merge
            else remove
        | join_by_external_commit ↦ if accepted then merge else remove
        | update_tree ↦ if accepted then merge else clear
        | leave_group ↦ keep
        | idle ↦ keep
      ]

  abbrev pub perform : Decision → AllMessagesOfGroup → Group → Act mls (Resolved Group)
  perform keep m g w = (ok (record { group = some g; deleted = false }), w)
  perform merge m g w =
      then_idle mls m.group_id (replace_group mls (merge_pending_commit mls) m.group_id w)
  perform clear m g w =
      then_idle mls m.group_id (replace_group mls (clear_pending_commit mls) m.group_id w)
  perform remove m g w = then_idle mls m.group_id (remove_group mls m.group_id w)

  -- The nested branches of the desync check are one decision table, over the pending operation,
  -- the epoch and the tree hash of the group, and whether the first commit of the expected epoch
  -- is the client's own, and one action for each decision.
  pub resolve-eq-perform :
      (op : GroupPendingOperation) (m : AllMessagesOfGroup) (g : Group) (own_id : Text)
      (w : World Store)
      → resolve mls op m g own_id w ≡ perform (decide op m g own_id) m g w
  unfolding resolve resolve_create_or_join resolve_created resolve_joined resolve_update
  resolve-eq-perform create_group m g own_id w = ground arith
  resolve-eq-perform join_by_external_commit m g own_id w = ground arith
  resolve-eq-perform update_tree m g own_id w = ground arith
  resolve-eq-perform leave_group m g own_id w = refl
  resolve-eq-perform idle m g own_id w = refl

  replace_group_error :
      (act : GroupExec mls (Unit {0})) (id : Text) (w : World Store) (e : Error)
      → (replace_group mls act id w).0 ≡ err e
      → (replace_group mls act id w).1 ≡ w
  unfolding replace_group
  replace_group_error act id w e h = ground (arith, change_group_atomic mls act id w.store e)

  remove_group_error :
      (id : Text) (w : World Store) (e : Error)
      → (remove_group mls id w).0 ≡ err e
      → (remove_group mls id w).1 ≡ w
  unfolding remove_group
  remove_group_error id w e h =
      ground (arith, change_group_atomic mls (delete_group mls) id w.store e)

  perform_error :
      (d : Decision) (m : AllMessagesOfGroup) (g : Group) (w : World Store) (e : Error)
      → (perform d m g w).0 ≡ err e
      → (perform d m g w).1 ≡ w
  perform_error keep m g w e h = refl
  perform_error merge m g w e h =
      ground (arith, replace_group_error (merge_pending_commit mls) m.group_id w e)
  perform_error clear m g w e h =
      ground (arith, replace_group_error (clear_pending_commit mls) m.group_id w e)
  perform_error remove m g w e h = ground (arith, remove_group_error m.group_id w e)

  -- A desync check that fails has changed neither the key store nor the status table.
  pub resolve_error :
      (op : GroupPendingOperation) (m : AllMessagesOfGroup) (g : Group) (own_id : Text)
      (w : World Store) (e : Error)
      → (resolve mls op m g own_id w).0 ≡ err e
      → (resolve mls op m g own_id w).1 ≡ w
  resolve_error op m g own_id w e h =
      rw (resolve-eq-perform op m g own_id w) (
        perform_error (decide op m g own_id) m g w e (rw (resolve-eq-perform op m g own_id w) at h))

  perform_deleted :
      (d : Decision) (m : AllMessagesOfGroup) (g : Group) (w : World Store) (r : Resolved Group)
      → (perform d m g w).0 ≡ ok r
      → ((r.deleted ≡ true) ↔ (d ≡ remove)) × ((r.group ≡ none) ↔ (d ≡ remove))
  unfolding replace_group remove_group
  perform_deleted keep m g w r h = (
    (λ e. absurd (ground arith), λ e. absurd (ground arith)),
    (λ e. absurd (ground arith), λ e. absurd (ground arith)),
  )
  perform_deleted merge m g w r h = (
    (λ e. absurd (ground arith), λ e. absurd (ground arith)),
    (λ e. absurd (ground arith), λ e. absurd (ground arith)),
  )
  perform_deleted clear m g w r h = (
    (λ e. absurd (ground arith), λ e. absurd (ground arith)),
    (λ e. absurd (ground arith), λ e. absurd (ground arith)),
  )
  perform_deleted remove m g w r h =
      ((λ e. refl, λ e. ground arith), (λ e. refl, λ e. ground arith))

  -- A check that succeeds reports the group as deleted exactly if the decision is to remove it, and
  -- gives no group back exactly then.
  pub resolve_deleted :
      (op : GroupPendingOperation) (m : AllMessagesOfGroup) (g : Group) (own_id : Text)
      (w : World Store) (r : Resolved Group)
      → (resolve mls op m g own_id w).0 ≡ ok r
      → ((r.deleted ≡ true) ↔ (decide op m g own_id ≡ remove))
        × ((r.group ≡ none) ↔ (decide op m g own_id ≡ remove))
  resolve_deleted op m g own_id w r h =
      perform_deleted (decide op m g own_id) m g w r (rw (resolve-eq-perform op m g own_id w) at h)

  perform_idle :
      (d : Decision) (m : AllMessagesOfGroup) (g : Group) (w : World Store) (r : Resolved Group)
      → d ≢ keep
      → w.status.faults ≡ []
      → (perform d m g w).0 ≡ ok r
      → get_row m.group_id (perform d m g w).1.status.rows ≡ some op_none
  unfolding replace_group remove_group set_idle insert_or_update_group_status delete_group_status
      text_of_operation
  perform_idle keep m g w r n f h = absurd (n refl)
  perform_idle merge m g w r n f h = ground (
    arith,
    get_row-upsert_row m.group_id m.group_id op_none w.status.rows,
    bytes_eq_refl m.group_id,
  )
  perform_idle clear m g w r n f h = ground (
    arith,
    get_row-upsert_row m.group_id m.group_id op_none w.status.rows,
    bytes_eq_refl m.group_id,
  )
  perform_idle remove m g w r n f h = ground (
    arith,
    get_row-upsert_row m.group_id m.group_id op_none (delete_rows m.group_id w.status.rows),
    bytes_eq_refl m.group_id,
  )

  -- While SQLite does not fail, a check that succeeds and does something leaves a row with the
  -- operation `none` for the group, also where it has just deleted the group and its row.
  pub resolve_idle :
      (op : GroupPendingOperation) (m : AllMessagesOfGroup) (g : Group) (own_id : Text)
      (w : World Store) (r : Resolved Group)
      → decide op m g own_id ≢ keep
      → w.status.faults ≡ []
      → (resolve mls op m g own_id w).0 ≡ ok r
      → get_row m.group_id (resolve mls op m g own_id w).1.status.rows ≡ some op_none
  resolve_idle op m g own_id w r n f h = rw (resolve-eq-perform op m g own_id w) (
      perform_idle (decide op m g own_id) m g w r n f
        (rw (resolve-eq-perform op m g own_id w) at h))

-- Below the last epoch of a u64, the commit that is looked for is, for an external join, the one
-- of the group's own epoch, epoch 0 included, and otherwise the one of the next epoch.
pub first_epoch_lem :
    (e : ℕ) (op : GroupPendingOperation)
    → e + 1 < u64_mod
    → first_epoch e op ≡ (if is_join op then e else e + 1)
unfolding first_epoch
first_epoch_lem e op h = ground arith
