-- ===== src/Mls/Status.antt =====
-- The group status table of crates/kchat-mls/src/lib.rs, and the operation that is pending for a
-- group.
pub mod Laws
use kchat_rust_sdk.Base.{
  Bool, Option, none, some, List, [], ◌∷◌, codes, bytes_eq, if◌then◌else◌, ok, err, Result,
}
use kchat_rust_sdk.Mls.Error.{Text, Error, Fallible}

pub data GroupPendingOperation : Type 0 where
  create_group join_by_external_commit leave_group update_tree idle : GroupPendingOperation

abbrev pub op_create_group : Text
op_create_group = codes "create_group"

abbrev pub op_join_by_external_commit : Text
op_join_by_external_commit = codes "join_by_external_commit"

abbrev pub op_leave_group : Text
op_leave_group = codes "leave_group"

abbrev pub op_update_tree : Text
op_update_tree = codes "update_tree"

abbrev pub op_none : Text
op_none = codes "none"

-- `From<Option<String>>`; the source's `None` is `idle`.
unfoldable pub operation_of_text : Option Text → GroupPendingOperation
operation_of_text none = idle
operation_of_text (some value) =
    if bytes_eq value op_create_group
    then create_group
    else if bytes_eq value op_join_by_external_commit
    then join_by_external_commit
    else if bytes_eq value op_leave_group
    then leave_group
    else if bytes_eq value op_update_tree
    then update_tree
    else idle

unfoldable pub text_of_operation : GroupPendingOperation → Text
text_of_operation create_group = op_create_group
text_of_operation join_by_external_commit = op_join_by_external_commit
text_of_operation leave_group = op_leave_group
text_of_operation update_tree = op_update_tree
text_of_operation idle = op_none

-- The table `group_statuses`, and a schedule of SQLite failures: each call takes one entry, and a
-- call whose entry is an error fails with it and changes no row. An empty schedule never fails.
pub record StatusDb : Type 0 where
  pub rows : List (Text × Text)
  pub faults : List (Option Error)

unfoldable pub get_row : Text → List (Text × Text) → Option Text
get_row k [] = none
get_row k ((j, v) ∷ rows) = if bytes_eq j k then some v else get_row k rows

unfoldable pub upsert_row : Text → Text → List (Text × Text) → List (Text × Text)
upsert_row k v [] = (k, v) ∷ []
upsert_row k v ((j, u) ∷ rows) =
    if bytes_eq j k then (j, v) ∷ rows else (j, u) ∷ upsert_row k v rows

unfoldable pub delete_rows : Text → List (Text × Text) → List (Text × Text)
delete_rows k [] = []
delete_rows k ((j, v) ∷ rows) =
    let rest = delete_rows k rows in if bytes_eq j k then rest else (j, v) ∷ rest

-- `connection.checkout`, `prepare` and `execute` under one entry of the schedule.
abbrev pub with_db {ℓ} :
    {A : Type ℓ} → (List (Text × Text) → A × List (Text × Text)) → StatusDb → Fallible A × StatusDb
with_db f db = elim db.faults [
  | [] ↦ let (a, rows) = f db.rows in (ok a, record db { rows = rows })
  | fault ∷ rest ↦ elim fault [
    | none ↦ let (a, rows) = f db.rows in (ok a, record { rows = rows; faults = rest })
    | some e ↦ (err e, record db { faults = rest })
  ]
]

unfoldable pub insert_or_update_group_status :
    Text → GroupPendingOperation → StatusDb → Fallible (Unit {0}) × StatusDb
insert_or_update_group_status group_id op =
    with_db (λ rows. (tt, upsert_row group_id (text_of_operation op) rows))

unfoldable pub delete_group_status : Text → StatusDb → Fallible (Unit {0}) × StatusDb
delete_group_status group_id = with_db (λ rows. (tt, delete_rows group_id rows))

unfoldable pub get_group_pending_operation : Text → StatusDb → Fallible (Option Text) × StatusDb
get_group_pending_operation group_id = with_db (λ rows. (get_row group_id rows, rows))

unfoldable pub contains_text : Text → List Text → Bool
contains_text t [] = Bool.false
contains_text t (x ∷ xs) = if bytes_eq x t then Bool.true else contains_text t xs

-- The rows that `WHERE group_id IN (…)` selects, in the order of the table.
unfoldable pub select_in : List Text → List (Text × Text) → List (Text × Text)
select_in ids [] = []
select_in ids ((j, v) ∷ rows) =
    let rest = select_in ids rows in if contains_text j ids then (j, v) ∷ rest else rest

-- The hash map that the rows are inserted into, one by one.
unfoldable pub collect_rows : List (Text × Text) → List (Text × Text) → List (Text × Text)
collect_rows [] result = result
collect_rows ((j, v) ∷ rows) result = collect_rows rows (upsert_row j v result)

unfoldable pub get_group_pending_operations_batch :
    List Text → StatusDb → Fallible (List (Text × Text)) × StatusDb
get_group_pending_operations_batch [] db = (ok [], db)
get_group_pending_operations_batch (id ∷ ids) db =
    with_db (λ rows. (collect_rows (select_in (id ∷ ids) rows) [], rows)) db
