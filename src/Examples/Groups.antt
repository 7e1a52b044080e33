-- ===== src/Examples/Groups.antt =====
-- Groups, their status rows and their messages.
use kchat_rust_sdk.Base.{
  ℕ, ◌+◌, ◌≡◌, refl, true, Option, none, some, [], ◌∷◌, Bytes, codes, arith, bytes_eq,
  if◌then◌else◌, ok, err, ◌>>=◌,
}
use kchat_rust_sdk.Mls.Error.{Text, storage}
use kchat_rust_sdk.Mls.Status.{
  join_by_external_commit, update_tree, StatusDb, op_create_group, op_none, get_row,
  insert_or_update_group_status, get_group_pending_operation, get_group_pending_operations_batch,
  contains_text,
}
use kchat_rust_sdk.Mls.Status.Laws.{
  read_operation, Unique, read-insert_or_update_group_status,
  get_group_pending_operations_batch_lem,
}
use kchat_rust_sdk.Mls.Messages.{CustomProposal, is_join, first_epoch}
use kchat_rust_sdk.Mls.OpenMls.{OpenMls, staged_commit, self_remove, outside}
use kchat_rust_sdk.Mls.Pending.Decision.{first_epoch_lem}

abbrev pub own : Text
own = codes "alice/f1"

-- A library with one group, whose epoch is all that it stores. A pending commit can be merged, but not
-- cleared; a staged commit never merges.
abbrev pub mls : OpenMls
mls = record {
  Group = ℕ;
  Store = ℕ;
  Credential = Bytes;
  Staged = Unit {0};
  Queued = Unit {0};
  Protocol = Bytes;
  Welcome = Unit {0};
  epoch = λ g. g;
  tree_hash = λ g. g ∷ [];
  own_leaf = λ g. some own;
  members = λ g. own ∷ [];
  member_at = λ g i. some own;
  basic_identity = λ x. some x;
  from_utf8 = λ x. some x;
  supports_epoch_secrets = λ s. true;
  load = λ id s. ok (some s);
  load_optimize = λ id epochs s. ok (some s);
  begin = λ s. none;
  commit = λ s. none;
  merge_pending_commit = λ g s. (ok tt, g + 1, g + 1);
  clear_pending_commit = λ g s. (err (codes "busy"), g, s + 5);
  delete = λ g s. (ok tt, g, 0);
  parse_protocol = λ b. ok b;
  parse_welcome = λ b. ok (some tt);
  join = λ w s. (ok s, s);
  process_message = λ g s p. (ok (staged_commit tt), g, s);
  merge_staged_commit = λ g s x. (err (storage (codes "database is locked")), g + 1, s + 1);
  has_signer = λ g s. ok tt;
  store_pending_proposal = λ g s q. (ok tt, g, s);
  commit_to_pending_proposals = λ g s. (ok tt, g, s);
  proposal_kind = λ q. self_remove;
  proposal_sender = λ q. outside;
}

abbrev pub from_json : Bytes → Option CustomProposal
from_json b = none

abbrev pub status : StatusDb
status = record { rows = (codes "g", op_create_group) ∷ (codes "h", op_none) ∷ []; faults = [] }

read-insert_or_update_group_status_example :
    read_operation (codes "g") (insert_or_update_group_status (codes "g") update_tree status).1 ≡ (
      if bytes_eq (codes "g") (codes "g")
      then ok update_tree
      else read_operation (codes "g") status)
read-insert_or_update_group_status_example =
    read-insert_or_update_group_status (codes "g") (codes "g") update_tree status refl

status-Unique : Unique status.rows
unfolding get_row bytes_eq
status-Unique = (refl, (refl, tt))

get_group_pending_operations_batch_lem_example :
    (do
      map ← (get_group_pending_operations_batch (codes "g" ∷ codes "k" ∷ []) status).0
      ok (get_row (codes "g") map))
    ≡ (if contains_text (codes "g") (codes "g" ∷ codes "k" ∷ [])
        then (get_group_pending_operation (codes "g") status).0
        else ok none)
get_group_pending_operations_batch_lem_example =
    get_group_pending_operations_batch_lem (codes "g" ∷ codes "k" ∷ []) (codes "g") status refl
      status-Unique

first_epoch_lem_example :
    first_epoch 0 join_by_external_commit ≡ (if is_join join_by_external_commit then 0 else 0 + 1)
first_epoch_lem_example = first_epoch_lem 0 join_by_external_commit (omega arith)
