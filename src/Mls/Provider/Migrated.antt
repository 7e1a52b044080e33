-- ===== src/Mls/Provider/Migrated.antt =====
-- What a migration of one group leaves, while SQLite does not fail.
use kchat_rust_sdk.Base.{
  ℕ, ◌≡◌, refl, true, false, not, some, List, [], ◌∷◌, Bytes, bytes_eq, arith, ok, if◌then◌else◌,
}
use kchat_rust_sdk.Mls.Provider.{Environment, write_snapshot, migrate_group_epoch_message_secrets}
use kchat_rust_sdk.Storage.Codec.{key_to_sql}
use kchat_rust_sdk.Storage.GroupData.{GroupDataType, data_type_to_sql}
use kchat_rust_sdk.Storage.GroupData.Laws as DataLaws
use kchat_rust_sdk.Storage.GroupEpochMessageSecrets as Epochs
use kchat_rust_sdk.Storage.GroupEpochMessageSecrets.{
  is_legacy_of, is_migration_done_in_tx, has_legacy_message_secrets_for_group_in_tx,
}
use kchat_rust_sdk.Storage.GroupEpochMessageSecrets.Laws as EpochLaws
use kchat_rust_sdk.Storage.GroupEpochMessageSecrets.Laws.{
  IsSmall, AllSmall, last_of, load_in_tx-replace_in_tx, replace_in_tx_lem,
}
use kchat_rust_sdk.Storage.Provider.TxMethods.{replace_group_epoch_message_secrets}
use kchat_rust_sdk.Storage.Provider.TxGroups.{delete_message_secrets}
use kchat_rust_sdk.Storage.Sqlite.{
  Text, Database, attempt, prepare_cached, query_row, storage_provider_version,
}
use kchat_rust_sdk.Storage.Table.{Table, bytes_key, pair_key, has_key, exists_where, delete_where}

no_legacy_left :
    (b : Bytes) (rows : Table (Bytes × Text) Bytes)
    → exists_where (is_legacy_of b) (
        delete_where
          (has_key storage_provider_version (b, data_type_to_sql GroupDataType.message_secrets))
          rows)
      ≡ false
unfolding exists_where delete_where
no_legacy_left b [] = refl
no_legacy_left b (r ∷ rows) = ground (arith, no_legacy_left b rows)

module _ (env : Environment) where
  open env use {GroupId, group}

  -- The rows of the two tables that the migration changes.
  abbrev migrated : Bytes → List (ℕ × Bytes) → Database → Database
  migrated b l db =
      DataLaws.with_rows
        (delete_where
          (has_key storage_provider_version (b, data_type_to_sql GroupDataType.message_secrets))
          db.tables.group_data)
        (EpochLaws.with_rows
          (EpochLaws.upsert_each b l
            (delete_where (Epochs.of_group b) db.tables.group_epoch_message_secrets))
          db)

  migrate_group_lem :
      (g : GroupId) (b : Bytes) (l : List (ℕ × Bytes)) (db : Database)
      → db.faults ≡ []
      → group.to_vec g ≡ some b
      → AllSmall l
      → env.snapshot g db ≡ (ok (some l), db)
      → migrate_group_epoch_message_secrets env g db ≡ (ok tt, migrated b l db)
  unfolding migrate_group_epoch_message_secrets write_snapshot delete_message_secrets
      replace_group_epoch_message_secrets
  migrate_group_lem g b l db i j s r =
      let rows = delete_where (Epochs.of_group b) db.tables.group_epoch_message_secrets in
      rw (r, replace_in_tx_lem group g b l db i j s)
        (rw
          (DataLaws.delete_in_tx_lem group g b GroupDataType.message_secrets
            (EpochLaws.with_rows (EpochLaws.upsert_each b l rows) db) i j)
          refl)

  is_migration_done_in_tx_lem :
      (g : GroupId) (b : Bytes) (db : Database)
      → db.faults ≡ []
      → group.to_vec g ≡ some b
      → (is_migration_done_in_tx group g db).0
        ≡ ok (not (exists_where (is_legacy_of b) db.tables.group_data))
  unfolding is_migration_done_in_tx has_legacy_message_secrets_for_group_in_tx query_row
      prepare_cached attempt key_to_sql
  is_migration_done_in_tx_lem g b db i j = ground arith

  -- The migration of a group that OpenMLS gives secrets for succeeds, while SQLite does not fail and the
  -- epochs are ones that an SQLite integer holds; after it the group counts as migrated, its secrets at
  -- each epoch are the last ones given for it, and the secrets of the other groups are as before.
  pub migrate_group_epoch_message_secrets_lem :
      (g h : GroupId) (b c : Bytes) (l : List (ℕ × Bytes)) (f : ℕ) (db : Database)
      → db.faults ≡ []
      → group.to_vec g ≡ some b
      → group.to_vec h ≡ some c
      → IsSmall f
      → AllSmall l
      → env.snapshot g db ≡ (ok (some l), db)
      → ((migrate_group_epoch_message_secrets env g db).0 ≡ ok tt)
        × ((is_migration_done_in_tx group g (migrate_group_epoch_message_secrets env g db).1).0
            ≡ ok true)
        × ((Epochs.load_in_tx group h f (migrate_group_epoch_message_secrets env g db).1).0
            ≡ (if bytes_eq b c then ok (last_of f l) else (Epochs.load_in_tx group h f db).0))
  migrate_group_epoch_message_secrets_lem g h b c l f db i j k s t r =
      rw (migrate_group_lem g b l db i j t r) (
        refl,
        ground (
          arith,
          is_migration_done_in_tx_lem g b (migrated b l db) i j,
          no_legacy_left b db.tables.group_data,
        ),
        ground (
          arith,
          load_in_tx-replace_in_tx group g h b c f l db i j k s t,
          replace_in_tx_lem group g b l db i j t,
          EpochLaws.load_in_tx_lem group h c f (migrated b l db).tables.group_epoch_message_secrets
              (migrated b l db) i k s,
          EpochLaws.load_in_tx_lem group h c f (migrated b l db).tables.group_epoch_message_secrets
              db i k s,
        ),
      )
