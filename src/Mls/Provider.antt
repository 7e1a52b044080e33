-- ===== src/Mls/Provider.antt =====
-- crates/uq-openmls/src/provider/sqlite_provider.rs: the deletion of a group, and the migration of the
-- message secrets of each epoch, on the tables of crates/kchat-storage-provider. What the code logs is
-- left out.
pub mod Deletion
pub mod Migrated
pub mod Migration
use kchat_rust_sdk.Base.{
  ℕ, ◌%◌, Bool, true, false, not, ◌||◌, Option, none, some, List, [], ◌∷◌, ◌++◌, codes, Bytes, ◌==◌,
  Result, ok, err, if◌then◌else◌,
}
use kchat_rust_sdk.Base.Exec.{Stateful, pure, map_error, ◌>>=◌, ◌>>◌}
use kchat_rust_sdk.Mls.Error.{Text, Error, storage, sqlite}
use kchat_rust_sdk.Storage.Codec.{Codec}
use kchat_rust_sdk.Storage.Sqlite.{
  SqlError, sqlite_failure, to_sql_conversion_failure, Database, Exec, attempt, or_roll_back,
  transaction,
}
use kchat_rust_sdk.Storage.GroupDelete.{delete_group_by_id}
use kchat_rust_sdk.Storage.Provider.PoolMethods.{
  is_legacy_message_secrets_migration_done, mark_legacy_message_secrets_migration_done,
  has_legacy_message_secrets, list_group_ids_with_message_secrets,
}
use kchat_rust_sdk.Storage.Provider.TxMethods.{replace_group_epoch_message_secrets}
use kchat_rust_sdk.Storage.Provider.TxGroups.{delete_message_secrets}

-- What the provider is built on: `GroupId` with its JSON codec, the texts of the errors of SQLite, and
-- the function of OpenMLS that reads the secrets of a group that are to be migrated.
pub record Environment : Type 1 where
  pub GroupId : Type 0
  pub group : Codec GroupId
  pub from_slice : Text → GroupId
  pub display : SqlError → Text
  pub display_code : ℕ → Text
  pub debug_code : ℕ → Text
  pub snapshot : GroupId → Stateful Text Database (Option (List (ℕ × Bytes)))

-- `code.extended_code & 0xff` is SQLITE_ERROR or SQLITE_CORRUPT.
unfoldable pub is_recoverable : SqlError → Bool
is_recoverable (sqlite_failure code detail) = code % 256 == 1 || code % 256 == 11
is_recoverable other = false

module _ (env : Environment) where
  open env use {GroupId, group}

  abbrev pub Act {ℓ} : Type ℓ → Type ℓ
  Act A = Stateful Error Database A

  -- `From<rusqlite::Error>`
  abbrev pub from_sql : SqlError → Error
  from_sql e = sqlite (env.display e)

  abbrev pub delete_rows : GroupId → Exec (Unit {0})
  delete_rows group_id = delete_group_by_id group env.display_code env.debug_code group_id

  -- The deletion on a connection of its own: it is opened, and told not to scrub; a transaction begins
  -- and is committed.
  unfoldable pub isolated_cleanup : GroupId → Exec (Unit {0})
  isolated_cleanup group_id = do
    attempt
    attempt
    attempt
    λ db. or_roll_back db.tables ((delete_rows group_id >> attempt) db)

  unfoldable pub cleanup_error : SqlError → SqlError → Error
  cleanup_error e cleanup = sqlite (
      codes "delete_group MLS transaction: "
      ++ env.display e
      ++ codes "; isolated cleanup: "
      ++ env.display cleanup)

  unfoldable pub recover : GroupId → Result SqlError (Unit {0}) → Act (Unit {0})
  recover group_id (ok _) db = (ok tt, db)
  recover group_id (err e) db =
      if not (is_recoverable e)
      then (err (sqlite (codes "delete_group MLS transaction: " ++ env.display e)), db)
      else map_error (cleanup_error e) (isolated_cleanup group_id) db

  unfoldable pub delete_group : Text → Act (Unit {0})
  delete_group group_id db =
      let id = env.from_slice group_id in
      let (result, after) = transaction (delete_rows id) db in recover id result after

  unfoldable pub write_snapshot : GroupId → Option (List (ℕ × Bytes)) → Act (Unit {0})
  write_snapshot group_id none = pure tt
  write_snapshot group_id (some message_secrets) = do
    map_error from_sql (replace_group_epoch_message_secrets group group_id message_secrets)
    map_error from_sql (delete_message_secrets group group_id)

  unfoldable pub migrate_group_epoch_message_secrets : GroupId → Act (Unit {0})
  migrate_group_epoch_message_secrets group_id =
      map_error storage (env.snapshot group_id) >>= write_snapshot group_id

  -- one round of the loop: the error of a group is logged and dropped
  unfoldable pub migrate_in_transaction : GroupId → Exec (Unit {0})
  migrate_in_transaction group_id =
      transaction
        (map_error (λ _. to_sql_conversion_failure) (migrate_group_epoch_message_secrets group_id))

  unfoldable pub migrate_each : List GroupId → Act (Unit {0})
  migrate_each [] db = (ok tt, db)
  migrate_each (group_id ∷ rest) db = migrate_each rest (migrate_in_transaction group_id db).1

  unfoldable pub mark_done_unless : Bool → Act (Unit {0})
  mark_done_unless legacy =
      if not legacy
      then map_error from_sql (mark_legacy_message_secrets_migration_done true)
      else pure tt

  unfoldable pub migrate_batch : List GroupId → Act (Unit {0})
  migrate_batch [] = map_error from_sql (mark_legacy_message_secrets_migration_done true)
  migrate_batch (group_id ∷ rest) = do
    migrate_each (group_id ∷ rest)
    legacy ← map_error from_sql has_legacy_message_secrets
    mark_done_unless legacy

  unfoldable pub migrate_unless : Bool → Act (Unit {0})
  migrate_unless done =
      if done
      then pure tt
      else (map_error from_sql (list_group_ids_with_message_secrets group) >>= migrate_batch)

  unfoldable pub try_migrate_epoch_message_secrets : Act (Unit {0})
  try_migrate_epoch_message_secrets =
      map_error from_sql is_legacy_message_secrets_migration_done >>= migrate_unless

  -- the error is logged and dropped
  unfoldable pub migrate_epoch_message_secrets : Database → Database
  migrate_epoch_message_secrets db = (try_migrate_epoch_message_secrets db).1
