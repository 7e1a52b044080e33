-- ===== src/Mls/Status/Laws.antt =====
-- The status table as a map from groups to operations.
use kchat_rust_sdk.Base.{
  ◌≡◌, refl, Option, none, some, List, [], ◌∷◌, arith, bytes_eq, eq_of_bytes_eq, bytes_eq_refl, ok,
  if◌then◌else◌, ◌>>=◌,
}
use kchat_rust_sdk.Mls.Error.{Text, Fallible}
use kchat_rust_sdk.Mls.Status.{
  GroupPendingOperation, create_group, join_by_external_commit, leave_group, update_tree, idle,
  operation_of_text, text_of_operation, StatusDb, get_row, upsert_row, delete_rows,
  insert_or_update_group_status, delete_group_status, get_group_pending_operation, contains_text,
  select_in, collect_rows, get_group_pending_operations_batch,
}

operation_of_text-text_of_operation :
    (op : GroupPendingOperation) → operation_of_text (some (text_of_operation op)) ≡ op
unfolding operation_of_text text_of_operation bytes_eq
operation_of_text-text_of_operation create_group = refl
operation_of_text-text_of_operation join_by_external_commit = refl
operation_of_text-text_of_operation leave_group = refl
operation_of_text-text_of_operation update_tree = refl
operation_of_text-text_of_operation idle = refl

pub get_row-upsert_row :
    (k j : Text) (v : Text) (rows : List (Text × Text))
    → get_row j (upsert_row k v rows) ≡ (if bytes_eq k j then some v else get_row j rows)
unfolding get_row upsert_row
get_row-upsert_row k j v [] = refl
get_row-upsert_row k j v ((i, u) ∷ rows) = ground (
  arith,
  get_row-upsert_row k j v rows,
  eq_of_bytes_eq k j,
  eq_of_bytes_eq i k,
  eq_of_bytes_eq i j,
  bytes_eq_refl k,
  bytes_eq_refl j,
  bytes_eq_refl i,
)

pub get_row-delete_rows :
    (k j : Text) (rows : List (Text × Text))
    → get_row j (delete_rows k rows) ≡ (if bytes_eq k j then none else get_row j rows)
unfolding get_row delete_rows
get_row-delete_rows k j [] = ground arith
get_row-delete_rows k j ((i, u) ∷ rows) = ground (
  arith,
  get_row-delete_rows k j rows,
  eq_of_bytes_eq k j,
  eq_of_bytes_eq i k,
  eq_of_bytes_eq i j,
  bytes_eq_refl k,
  bytes_eq_refl j,
  bytes_eq_refl i,
)

-- The operation that a client reads for a group.
abbrev pub read_operation : Text → StatusDb → Fallible GroupPendingOperation
read_operation j db = do text ← (get_group_pending_operation j db).0; ok (operation_of_text text)

-- While SQLite does not fail, the operation read for a group is the one last written for that group:
-- a write for another group does not change it.
pub read-insert_or_update_group_status :
    (k j : Text) (op : GroupPendingOperation) (db : StatusDb)
    → db.faults ≡ []
    → read_operation j (insert_or_update_group_status k op db).1
      ≡ (if bytes_eq k j then ok op else read_operation j db)
unfolding insert_or_update_group_status get_group_pending_operation
read-insert_or_update_group_status k j op db h = ground (
  arith,
  get_row-upsert_row k j (text_of_operation op) db.rows,
  operation_of_text-text_of_operation op,
)

-- While SQLite does not fail, a group reads as having no operation after its deletion, and the
-- others read as before.
pub read-delete_group_status :
    (k j : Text) (db : StatusDb)
    → db.faults ≡ []
    → read_operation j (delete_group_status k db).1
      ≡ (if bytes_eq k j then ok idle else read_operation j db)
unfolding delete_group_status get_group_pending_operation operation_of_text
read-delete_group_status k j db h = ground (arith, get_row-delete_rows k j db.rows)

-- The primary key: no group has two rows.
abbrev pub Unique : List (Text × Text) → Type 0
Unique [] = Unit {0}
Unique ((j, v) ∷ rows) = (get_row j rows ≡ none) × Unique rows

upsert_row-Unique :
    (k v : Text) (rows : List (Text × Text)) → Unique rows → Unique (upsert_row k v rows)
unfolding upsert_row get_row
upsert_row-Unique k v [] h = (refl, tt)
upsert_row-Unique k v ((j, u) ∷ rows) h = ground (
  arith,
  upsert_row-Unique k v rows h.1,
  get_row-upsert_row k j v rows,
  eq_of_bytes_eq k j,
  bytes_eq_refl j,
)

delete_rows-Unique :
    (k : Text) (rows : List (Text × Text)) → Unique rows → Unique (delete_rows k rows)
unfolding delete_rows
delete_rows-Unique k [] h = tt
delete_rows-Unique k ((j, u) ∷ rows) h =
    ground (arith, delete_rows-Unique k rows h.1, get_row-delete_rows k j rows)

get_row-select_in :
    (ids : List Text) (j : Text) (rows : List (Text × Text))
    → get_row j (select_in ids rows) ≡ (if contains_text j ids then get_row j rows else none)
unfolding get_row select_in
get_row-select_in ids j [] = ground arith
get_row-select_in ids j ((i, v) ∷ rows) =
    ground (arith, get_row-select_in ids j rows, eq_of_bytes_eq i j)

select_in-Unique :
    (ids : List Text) (rows : List (Text × Text)) → Unique rows → Unique (select_in ids rows)
unfolding select_in
select_in-Unique ids [] h = tt
select_in-Unique ids ((j, v) ∷ rows) h =
    ground (arith, select_in-Unique ids rows h.1, get_row-select_in ids j rows)

get_row-nil : (j : Text) → get_row j [] ≡ none
unfolding get_row
get_row-nil j = refl

abbrev or_else : Option Text → Option Text → Option Text
or_else none o = o
or_else (some v) o = some v

get_row-collect_rows :
    (j : Text) (rows result : List (Text × Text))
    → Unique rows
    → get_row j (collect_rows rows result) ≡ or_else (get_row j rows) (get_row j result)
unfolding collect_rows get_row
get_row-collect_rows j [] result h = refl
get_row-collect_rows j ((i, v) ∷ rows) result h = ground (
  arith,
  get_row-collect_rows j rows (upsert_row i v result) h.1,
  get_row-upsert_row i j v result,
  eq_of_bytes_eq i j,
)

-- The batch query answers for each group asked for what the single query answers, and has no answer
-- for the others, while SQLite does not fail and the table keeps its primary key.
pub get_group_pending_operations_batch_lem :
    (ids : List Text) (j : Text) (db : StatusDb)
    → db.faults ≡ []
    → Unique db.rows
    → (do map ← (get_group_pending_operations_batch ids db).0; ok (get_row j map))
      ≡ (if contains_text j ids then (get_group_pending_operation j db).0 else ok none)
unfolding get_group_pending_operations_batch get_group_pending_operation
get_group_pending_operations_batch_lem [] j db h u = unfold contains_text get_row in ground arith
get_group_pending_operations_batch_lem (id ∷ ids) j db h u = ground (
  arith,
  get_row-collect_rows j (select_in (id ∷ ids) db.rows) [] (select_in-Unique (id ∷ ids) db.rows u),
  get_row-select_in (id ∷ ids) j db.rows,
  get_row-nil j,
)

-- No status operation, failing or not, breaks the primary key of a table that has it.
pub status_ops-Unique :
    (k : Text) (op : GroupPendingOperation) (db : StatusDb)
    → Unique db.rows
    → Unique (insert_or_update_group_status k op db).1.rows
      × Unique (delete_group_status k db).1.rows
      × Unique (get_group_pending_operation k db).1.rows
unfolding insert_or_update_group_status delete_group_status get_group_pending_operation
status_ops-Unique k op db u =
    ground
      (arith, upsert_row-Unique k (text_of_operation op) db.rows u, delete_rows-Unique k db.rows u)
