-- ===== src/Mls/Provider/Migration.antt =====
-- The migration is marked as done only when no legacy secrets are left.
use kchat_rust_sdk.Base.{
  ◌≡◌, ◌≢◌, refl, ap, ◌∙◌, ℕ, suc, Bytes, Bool, true, false, ◌&&◌, Option, none, some, List, [],
  ◌∷◌, ◌++◌, reverse, take, ok, Result-cases, inl, inr, arith,
}
use kchat_rust_sdk.Base.Exec.{map_error, ◌>>=◌}
use kchat_rust_sdk.Mls.Error.{Text}
use kchat_rust_sdk.Mls.Provider.{
  Environment, from_sql, write_snapshot, migrate_group_epoch_message_secrets,
  migrate_in_transaction, migrate_each, mark_done_unless, migrate_batch, migrate_unless,
  try_migrate_epoch_message_secrets, migrate_epoch_message_secrets,
}
use kchat_rust_sdk.Storage.EpochMigrationState.{is_done}
use kchat_rust_sdk.Storage.EpochMigrationState as State
use kchat_rust_sdk.Storage.Provider.PoolMethods.{
  is_legacy_message_secrets_migration_done, mark_legacy_message_secrets_migration_done,
  has_legacy_message_secrets, list_group_ids_with_message_secrets,
}
use kchat_rust_sdk.Storage.Provider.TxMethods.{replace_group_epoch_message_secrets}
use kchat_rust_sdk.Storage.GroupData.{delete_group_data_in_tx}
use kchat_rust_sdk.Storage.GroupEpochMessageSecrets.{is_legacy}
use kchat_rust_sdk.Storage.GroupEpochMessageSecrets as Epochs
use kchat_rust_sdk.Storage.Provider.TxGroups.{delete_message_secrets}
use kchat_rust_sdk.Storage.Sqlite.{
  Tables, Database, attempt, checkout, prepare_cached, execute, query_row, query_map, collect,
  storage_provider_version, Fallible,
}
use kchat_rust_sdk.Storage.Codec.{key_from_sql}
use kchat_rust_sdk.Storage.GroupEpochMessageSecrets.Replace.{replace_in_tx-Keeps}
use kchat_rust_sdk.Storage.Sqlite.Transactions.{begun}
use kchat_rust_sdk.Storage.Sqlite.Keeps.{
  Keeps, Keeps-then, Keeps-bind, Keeps-pure, Keeps-transaction, Keeps-map_error, keeps_rules,
  attempt-tables,
}
use kchat_rust_sdk.Storage.Table.{
  bytes_key, pair_key, Row, Table, unit_key, select, select_where, exists_where, delete_where,
}
use kchat_rust_sdk.Storage.Table.Laws.{exists_where-delete_where}

-- The mark of a finished migration tells the truth: where it is set there are no legacy secrets.
abbrev pub MarkIsTrue : Tables → Type 0
MarkIsTrue t =
    (is_done (select storage_provider_version tt t.epoch_migration_state)
      && exists_where is_legacy t.group_data)
    ≡ false

other_rows-MarkIsTrue :
    (rows : _) (t : Tables)
    → MarkIsTrue t
    → MarkIsTrue (record t { group_epoch_message_secrets = rows })
other_rows-MarkIsTrue rows t h = h

delete_rows-MarkIsTrue :
    (p : _ → Bool) (t : Tables)
    → MarkIsTrue t
    → MarkIsTrue (record t { group_data = delete_where p t.group_data })
delete_rows-MarkIsTrue p t h = ground (arith, exists_where-delete_where is_legacy p t.group_data)

-- A list of groups that comes back empty has left nothing out.
append-ne_nil : {A : Type 0} (xs : List A) (x : A) → (xs ++ x ∷ []) ≢ []
append-ne_nil [] x h = cc
append-ne_nil (y ∷ xs) x h = cc

reverse-eq_nil : {A : Type 0} (xs : List A) → reverse xs ≡ [] → xs ≡ []
reverse-eq_nil [] h = refl
reverse-eq_nil (x ∷ xs) h = absurd (append-ne_nil (reverse xs) x h)

exists_where-eq_false :
    {K V : Type 0} (p : Row K V → Bool) (rows : Table K V)
    → select_where p rows ≡ []
    → exists_where p rows ≡ false
unfolding select_where exists_where
exists_where-eq_false p [] h = refl
exists_where-eq_false p (r ∷ rows) h = ground (arith, exists_where-eq_false p rows)

collect-eq_nil : {A B : Type 0} (f : A → Fallible B) (xs : List A) → collect f xs ≡ ok [] → xs ≡ []
unfolding collect
collect-eq_nil f [] h = refl
collect-eq_nil f (x ∷ xs) h = absurd (ground arith)

take-eq_nil : {A : Type 0} (n : ℕ) (xs : List A) → take (suc n) xs ≡ [] → xs ≡ []
take-eq_nil n [] h = refl
take-eq_nil n (x ∷ xs) h = absurd (ground arith)

module _ (env : Environment) where
  open env use {GroupId, group}

  list_group_ids-eq_nil :
      (db : Database)
      → (list_group_ids_with_message_secrets group db).0 ≡ ok []
      → exists_where is_legacy (list_group_ids_with_message_secrets group db).1.tables.group_data
        ≡ false
  unfolding list_group_ids_with_message_secrets Epochs.list_group_ids_with_message_secrets query_map
      checkout prepare_cached
  list_group_ids-eq_nil db h =
      let legacy : List (Row (Bytes × Text) Bytes) =
        select_where is_legacy (begun db).tables.group_data in
      ground (
        arith,
        collect-eq_nil (λ r. key_from_sql group r.key.0) (take 20 (reverse legacy)),
        take-eq_nil 19 (reverse legacy),
        reverse-eq_nil legacy,
        exists_where-eq_false is_legacy (begun db).tables.group_data,
      )

  has_legacy-tables :
      (db : Database) (b : Bool)
      → (has_legacy_message_secrets db).0 ≡ ok b
      → exists_where is_legacy (has_legacy_message_secrets db).1.tables.group_data ≡ b
  unfolding has_legacy_message_secrets Epochs.has_legacy_message_secrets query_row
  has_legacy-tables db b h = ground arith

  mark-MarkIsTrue :
      (db : Database)
      → exists_where is_legacy db.tables.group_data ≡ false
      → MarkIsTrue (mark_legacy_message_secrets_migration_done true db).1.tables
  unfolding mark_legacy_message_secrets_migration_done
      State.mark_legacy_message_secrets_migration_done execute checkout prepare_cached
  mark-MarkIsTrue db h = ground (
    arith,
    attempt-tables db,
    attempt-tables (attempt db).1,
    attempt-tables (attempt (attempt db).1).1,
  )

  replace-Keeps :
      (g : GroupId) (l : List (ℕ × Bytes))
      → Keeps MarkIsTrue (replace_group_epoch_message_secrets group g l)
  unfolding replace_group_epoch_message_secrets
  replace-Keeps = replace_in_tx-Keeps MarkIsTrue ((λ k x t h. h), (λ p t h. h)) group

  delete-Keeps : (g : GroupId) → Keeps MarkIsTrue (delete_message_secrets group g)
  unfolding delete_message_secrets delete_group_data_in_tx
  delete-Keeps g = search (keeps_rules, delete_rows-MarkIsTrue) depth 9

  write_snapshot-Keeps :
      (g : GroupId) (found : Option (List (ℕ × Bytes)))
      → Keeps MarkIsTrue (write_snapshot env g found)
  unfolding write_snapshot
  write_snapshot-Keeps g none = Keeps-pure tt
  write_snapshot-Keeps g (some l) =
      Keeps-then _ _ (Keeps-map_error (from_sql env) _ (replace-Keeps g l))
        (Keeps-map_error (from_sql env) _ (delete-Keeps g))

  -- OpenMLS reads the secrets of a group and changes no table.
  abbrev pub SnapshotReads : Type 0
  SnapshotReads = (g : GroupId) (db : Database) → (env.snapshot g db).1.tables ≡ db.tables

  migrate_group-Keeps :
      SnapshotReads → (g : GroupId) → Keeps MarkIsTrue (migrate_group_epoch_message_secrets env g)
  unfolding migrate_group_epoch_message_secrets
  migrate_group-Keeps reads g =
      Keeps-bind _ (write_snapshot env g)
        (Keeps-map_error _ (env.snapshot g) (record { after = λ db h. rw (reads g db) h }))
        (write_snapshot-Keeps g)

  migrate_in_transaction-Keeps :
      SnapshotReads → (g : GroupId) → Keeps MarkIsTrue (migrate_in_transaction env g)
  unfolding migrate_in_transaction
  migrate_in_transaction-Keeps reads g =
      Keeps-transaction _ (Keeps-map_error _ _ (migrate_group-Keeps reads g))

  migrate_each-Keeps :
      SnapshotReads → (ids : List GroupId) → Keeps MarkIsTrue (migrate_each env ids)
  unfolding migrate_each
  migrate_each-Keeps reads [] = record { after = λ db h. h }
  migrate_each-Keeps reads (g ∷ ids) = record {
    after = λ db h.
        (migrate_each-Keeps reads ids).after (migrate_in_transaction env g db).1
          ((migrate_in_transaction-Keeps reads g).after db h);
  }

  has_legacy-Keeps : Keeps MarkIsTrue has_legacy_message_secrets
  unfolding has_legacy_message_secrets Epochs.has_legacy_message_secrets
  has_legacy-Keeps = search keeps_rules depth 9

  list_group_ids-Keeps : Keeps MarkIsTrue (list_group_ids_with_message_secrets group)
  unfolding list_group_ids_with_message_secrets Epochs.list_group_ids_with_message_secrets
  list_group_ids-Keeps = search keeps_rules depth 9

  is_done-Keeps : Keeps MarkIsTrue is_legacy_message_secrets_migration_done
  unfolding is_legacy_message_secrets_migration_done State.is_legacy_message_secrets_migration_done
  is_done-Keeps = search keeps_rules depth 9

  marked_unless :
      (db : Database)
      → MarkIsTrue db.tables
      → MarkIsTrue
          ((map_error (from_sql env) has_legacy_message_secrets >>= mark_done_unless env)
            db).1.tables
  unfolding mark_done_unless
  marked_unless db h = elim (Result-cases (has_legacy_message_secrets db).0) [
    | inl (true, found) ↦ ground (arith, found, has_legacy-Keeps.after db h)
    | inl (false, found) ↦ ground (
      arith,
      found,
      mark-MarkIsTrue (has_legacy_message_secrets db).1 (has_legacy-tables db false found),
    )
    | inr failed ↦ ground (arith, failed.1, has_legacy-Keeps.after db h)
  ]

  migrate_batch_keeps :
      SnapshotReads
      → (ids : List GroupId) (db : Database)
      → (ids ≡ [] → exists_where is_legacy db.tables.group_data ≡ false)
      → MarkIsTrue db.tables
      → MarkIsTrue (migrate_batch env ids db).1.tables
  unfolding migrate_batch
  migrate_batch_keeps reads [] db e h = mark-MarkIsTrue db (e refl)
  migrate_batch_keeps reads (g ∷ ids) db e h =
      let after : Database = (migrate_each env (g ∷ ids) db).1 in
      elim (Result-cases (migrate_each env (g ∷ ids) db).0) [
        | inl done ↦
            rw done.1 (marked_unless after ((migrate_each-Keeps reads (g ∷ ids)).after db h))
        | inr failed ↦ rw failed.1 ((migrate_each-Keeps reads (g ∷ ids)).after db h)
      ]

  migrate_listed_keeps :
      SnapshotReads
      → (db : Database) → MarkIsTrue db.tables
      → MarkIsTrue (migrate_unless env false db).1.tables
  unfolding migrate_unless
  migrate_listed_keeps reads db h =
      let listed : Fallible (List GroupId) × Database =
        list_group_ids_with_message_secrets group db in
      elim (Result-cases listed.0) [
        | inl (ids, found) ↦ rw found (
            migrate_batch_keeps reads ids listed.1
              (λ none_listed. list_group_ids-eq_nil db (found ∙ ap ok none_listed))
              (list_group_ids-Keeps.after db h))
        | inr failed ↦ rw failed.1 (list_group_ids-Keeps.after db h)
      ]

  try_migrate_keeps :
      SnapshotReads
      → (db : Database) → MarkIsTrue db.tables
      → MarkIsTrue (try_migrate_epoch_message_secrets env db).1.tables
  unfolding try_migrate_epoch_message_secrets
  try_migrate_keeps reads db h =
      elim (Result-cases (is_legacy_message_secrets_migration_done db).0) [
        | inl (true, done) ↦ unfold migrate_unless in rw done (is_done-Keeps.after db h)
        | inl (false, done) ↦ rw done (
            migrate_listed_keeps reads (is_legacy_message_secrets_migration_done db).1
              (is_done-Keeps.after db h))
        | inr failed ↦ rw failed.1 (is_done-Keeps.after db h)
      ]

  -- However the migration at the opening of a database fails or is cut short by an error, it sets the mark
  -- of a finished migration only in a database without legacy secrets: a mark that told the truth
  -- before tells the truth after. This is where OpenMLS, asked for the secrets of a group, changes no
  -- table.
  pub migrate_epoch_message_secrets-MarkIsTrue :
      SnapshotReads
      → (db : Database) → MarkIsTrue db.tables
      → MarkIsTrue (migrate_epoch_message_secrets env db).tables
  unfolding migrate_epoch_message_secrets
  migrate_epoch_message_secrets-MarkIsTrue reads db h = try_migrate_keeps reads db h
