-- ===== src/Mls/Provider/Deletion.antt =====
-- The deletion of a group is complete or has no effect.
use kchat_rust_sdk.Base.{
  ◌≡◌, refl, ap, ◌∙◌, List, [], ◌∷◌, Bytes, ok, err, Result-cases, inl, inr, arith, some,
}
use kchat_rust_sdk.Mls.Error.{Text, Error}
use kchat_rust_sdk.Mls.Provider.{Environment, delete_rows, isolated_cleanup, recover, delete_group}
use kchat_rust_sdk.Storage.Codec.{key_to_sql}
use kchat_rust_sdk.Storage.GroupDelete.{
  GroupTable, group_tables, delete_from, delete_from_table, delete_from_tables, delete_group_by_id,
}
use kchat_rust_sdk.Storage.GroupDelete.Laws.{
  delete_from_each, without_group, delete_from_each-eq-without_group,
}
use kchat_rust_sdk.Storage.Sqlite.{
  Database, SqlError, attempt, prepare_cached, execute, map_err, or_roll_back, transaction,
}
use kchat_rust_sdk.Storage.Sqlite.Keeps.{attempt-tables}
use kchat_rust_sdk.Storage.Sqlite.Transactions.{
  begun, begun-tables, transaction_atomic, transaction-committed,
}

module _ (env : Environment) where
  delete_from_table-eq-ok :
      (g : env.GroupId) (b : Bytes) (table : GroupTable) (db : Database)
      → env.group.to_vec g ≡ some b
      → (delete_from_table env.group env.display_code env.debug_code g table db).0 ≡ ok tt
      → (delete_from_table env.group env.display_code env.debug_code g table db).1.tables
        ≡ delete_from table b db.tables
  unfolding delete_from_table map_err prepare_cached attempt execute key_to_sql
  delete_from_table-eq-ok g b table db i h = ground arith

  delete_from_tables-eq-ok :
      (g : env.GroupId) (b : Bytes) (l : List GroupTable) (db : Database)
      → env.group.to_vec g ≡ some b
      → (delete_from_tables env.group env.display_code env.debug_code g l db).0 ≡ ok tt
      → (delete_from_tables env.group env.display_code env.debug_code g l db).1.tables
        ≡ delete_from_each l b db.tables
  unfolding delete_from_tables
  delete_from_tables-eq-ok g b [] db i h = refl
  delete_from_tables-eq-ok g b (table ∷ l) db i h =
      elim (Result-cases
        (delete_from_table env.group env.display_code env.debug_code g table db).0) [
          | inl done ↦ ground (
            arith,
            delete_from_table-eq-ok g b table db i,
            delete_from_tables-eq-ok g b l
                (delete_from_table env.group env.display_code env.debug_code g table db).1 i,
            done.1,
          )
          | inr failed ↦ absurd (ground (arith, failed.1))
        ]

  delete_rows-eq-ok :
      (g : env.GroupId) (b : Bytes) (db : Database)
      → env.group.to_vec g ≡ some b
      → (delete_rows env g db).0 ≡ ok tt
      → (delete_rows env g db).1.tables ≡ without_group b db.tables
  unfolding delete_group_by_id
  delete_rows-eq-ok g b db i h =
      delete_from_tables-eq-ok g b group_tables db i h
      ∙ delete_from_each-eq-without_group b db.tables

  in_transaction :
      (g : env.GroupId) (b : Bytes) (db : Database)
      → env.group.to_vec g ≡ some b
      → (transaction (delete_rows env g) db).0 ≡ ok tt
      → (transaction (delete_rows env g) db).1.tables ≡ without_group b db.tables
  in_transaction g b db i h =
      let (body, effect) = transaction-committed (delete_rows env g) db tt h in
      effect ∙ delete_rows-eq-ok g b (begun db) i body ∙ ap (without_group b) (begun-tables db)

  in_cleanup :
      (g : env.GroupId) (b : Bytes) (db : Database)
      → env.group.to_vec g ≡ some b
      → (isolated_cleanup env g db).0 ≡ ok tt
      → (isolated_cleanup env g db).1.tables ≡ without_group b db.tables
  unfolding isolated_cleanup or_roll_back
  in_cleanup g b db i h = ground (
    arith,
    delete_rows-eq-ok g b (begun db) i,
    begun-tables db,
    attempt-tables (delete_rows env g (begun db)).1,
  )

  cleanup_atomic :
      (g : env.GroupId) (db : Database) (e : SqlError)
      → (isolated_cleanup env g db).0 ≡ err e
      → (isolated_cleanup env g db).1.tables ≡ db.tables
  unfolding isolated_cleanup or_roll_back
  cleanup_atomic g db e h = ground (
    arith,
    attempt-tables db,
    attempt-tables (attempt db).1,
    attempt-tables (attempt (attempt db).1).1,
  )

  -- A deletion of a group that returns without an error, whatever calls of SQLite failed on its way, has
  -- removed every row of the group from the six tables that hold rows of groups, and nothing else.
  pub delete_group-eq-ok :
      (group_id : Text) (b : Bytes) (db : Database)
      → env.group.to_vec (env.from_slice group_id) ≡ some b
      → (delete_group env group_id db).0 ≡ ok tt
      → (delete_group env group_id db).1.tables ≡ without_group b db.tables
  unfolding delete_group recover
  delete_group-eq-ok group_id b db i h =
      let g : env.GroupId = env.from_slice group_id in
      let after : Database = (transaction (delete_rows env g) db).1 in
      elim (Result-cases (transaction (delete_rows env g) db).0) [
        | inl done ↦ ground (arith, done.1, in_transaction g b db i)
        | inr failed ↦ ground (
          arith,
          failed.1,
          transaction_atomic (delete_rows env g) db failed.0,
          in_cleanup g b after i,
        )
      ]

  -- A deletion of a group that returns an error leaves the tables as they were.
  pub delete_group_atomic :
      (group_id : Text) (db : Database) (e : Error)
      → (delete_group env group_id db).0 ≡ err e
      → (delete_group env group_id db).1.tables ≡ db.tables
  unfolding delete_group recover
  delete_group_atomic group_id db e h =
      let g : env.GroupId = env.from_slice group_id in
      let after : Database = (transaction (delete_rows env g) db).1 in
      elim (Result-cases (transaction (delete_rows env g) db).0) [
        | inl done ↦ absurd (ground (arith, done.1))
        | inr failed ↦ elim (Result-cases (isolated_cleanup env g after).0) [
          | inl cleaned ↦
              ground
                (arith, failed.1, cleaned.1, transaction_atomic (delete_rows env g) db failed.0)
          | inr again ↦ ground (
            arith,
            failed.1,
            again.1,
            transaction_atomic (delete_rows env g) db failed.0,
            cleanup_atomic g after again.0,
          )
        ]
      ]
