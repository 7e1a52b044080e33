-- ===== src/Examples/Providers.antt =====
-- A provider on the database of Tables.antt.
use kchat_rust_sdk.Base.{◌≡◌, refl, true, none, some, [], ◌∷◌, Bytes, codes, ok, bytes_eq, arith}
use kchat_rust_sdk.Mls.Error.{sqlite}
use kchat_rust_sdk.Mls.Provider.{
  Environment, cleanup_error, is_recoverable, isolated_cleanup, recover, delete_group,
  migrate_epoch_message_secrets, migrate_group_epoch_message_secrets,
}
use kchat_rust_sdk.Mls.Provider.Deletion.{delete_group-eq-ok, delete_group_atomic}
use kchat_rust_sdk.Mls.Provider.Migrated.{migrate_group_epoch_message_secrets_lem}
use kchat_rust_sdk.Mls.Provider.Migration.{MarkIsTrue, migrate_epoch_message_secrets-MarkIsTrue}
use kchat_rust_sdk.Storage.Codec.{key_to_sql}
use kchat_rust_sdk.Storage.GroupDelete.{delete_from_table, delete_from_tables, delete_group_by_id}
use kchat_rust_sdk.Storage.GroupDelete.Laws.{without_group}
use kchat_rust_sdk.Storage.GroupEpochMessageSecrets as Epochs
use kchat_rust_sdk.Storage.GroupEpochMessageSecrets.{is_migration_done_in_tx}
use kchat_rust_sdk.Storage.Sqlite.{
  Database, sqlite_failure, attempt, checkout, prepare_cached, execute, transaction, until_commit,
  or_roll_back, map_err, sqlite_error_context,
}
use kchat_rust_sdk.Storage.Table.{select}
use kchat_rust_sdk.Examples.Tables.{plain, g1, tables, db}

-- OpenMLS gives the same secrets of one epoch for every group.
abbrev env : Environment
env = record {
  GroupId = Bytes;
  group = plain;
  from_slice = λ text. text;
  display = λ e. codes "failure";
  display_code = λ n. codes "failure";
  debug_code = λ n. codes "Failure";
  snapshot = λ g s. (ok (some ((3, 31 ∷ []) ∷ [])), s);
}

-- The first transaction finds a damaged page.
abbrev damaged : Database
damaged = record {
  tables = tables;
  faults = none ∷ none ∷ none ∷ none ∷ some (sqlite_failure 267 none) ∷ [];
}

-- Both do.
abbrev broken : Database
broken = record {
  tables = tables;
  faults =
      none
      ∷ none
      ∷ none
      ∷ none
      ∷ some (sqlite_failure 267 none)
      ∷ none
      ∷ none
      ∷ none
      ∷ none
      ∷ some (sqlite_failure 11 none)
      ∷ [];
}

delete_group-eq-ok_example : (delete_group env g1 damaged).1.tables ≡ without_group g1 tables
unfolding delete_group recover is_recoverable isolated_cleanup transaction until_commit or_roll_back
    checkout attempt delete_group_by_id delete_from_tables delete_from_table map_err prepare_cached
    key_to_sql execute sqlite_error_context
delete_group-eq-ok_example = delete_group-eq-ok env g1 g1 damaged refl refl

delete_group_atomic_example : (delete_group env g1 broken).1.tables ≡ tables
unfolding delete_group recover is_recoverable isolated_cleanup transaction until_commit or_roll_back
    checkout attempt delete_group_by_id delete_from_tables delete_from_table map_err prepare_cached
    key_to_sql execute sqlite_error_context cleanup_error
delete_group_atomic_example =
    delete_group_atomic env g1 broken
      (sqlite (codes "delete_group MLS transaction: failure; isolated cleanup: failure")) refl

migrate_epoch_message_secrets-MarkIsTrue_example :
    MarkIsTrue (migrate_epoch_message_secrets env db).tables
unfolding select
migrate_epoch_message_secrets-MarkIsTrue_example =
    migrate_epoch_message_secrets-MarkIsTrue env (λ g s. refl) db refl

migrate_group_epoch_message_secrets_lem_example :
    ((migrate_group_epoch_message_secrets env g1 db).0 ≡ ok tt)
    × ((is_migration_done_in_tx plain g1 (migrate_group_epoch_message_secrets env g1 db).1).0
        ≡ ok true)
    × ((Epochs.load_in_tx plain g1 3 (migrate_group_epoch_message_secrets env g1 db).1).0
        ≡ ok (some (31 ∷ [])))
unfolding bytes_eq
migrate_group_epoch_message_secrets_lem_example =
    migrate_group_epoch_message_secrets_lem env g1 g1 g1 g1 ((3, 31 ∷ []) ∷ []) 3 db refl refl refl
      (omega arith) (omega arith, tt) refl
