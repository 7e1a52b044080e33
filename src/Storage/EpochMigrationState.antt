-- ===== src/Storage/EpochMigrationState.antt =====
-- crates/kchat-storage-provider/src/epoch_migration_state.rs: whether the legacy message secrets of
-- every group were migrated.
use kchat_rust_sdk.Base.{ℕ, Bool, not, Option, none, some, ◌==◌, ok, if◌then◌else◌}
use kchat_rust_sdk.Base.Exec.{pure, ◌>>=◌, ◌>>◌}
use kchat_rust_sdk.Storage.Table.{unit_key, select, upsert}
use kchat_rust_sdk.Storage.Sqlite.{
  Exec, checkout, prepare_cached, execute, query_row, optional, storage_provider_version,
}

-- `unwrap_or(0)`, and the test of the column
abbrev pub is_done : Option ℕ → Bool
is_done none = not (0 == 0)
is_done (some done) = not (done == 0)

-- `i64::from`
abbrev pub i64_from : Bool → ℕ
i64_from done = if done then 1 else 0

unfoldable pub is_legacy_message_secrets_migration_done : Exec Bool
is_legacy_message_secrets_migration_done = do
  checkout
  prepare_cached
  found ← optional (
      query_row (λ t. select storage_provider_version tt t.epoch_migration_state) (λ done. ok done))
  pure (is_done found)

unfoldable pub is_legacy_message_secrets_migration_done_in_tx : Exec Bool
is_legacy_message_secrets_migration_done_in_tx = do
  prepare_cached
  found ← optional (
      query_row (λ t. select storage_provider_version tt t.epoch_migration_state) (λ done. ok done))
  pure (is_done found)

unfoldable pub mark_legacy_message_secrets_migration_done : Bool → Exec (Unit {0})
mark_legacy_message_secrets_migration_done done = do
  checkout
  prepare_cached
  execute (λ t. record t {
    epoch_migration_state =
        upsert storage_provider_version tt (i64_from done) t.epoch_migration_state;
  })

unfoldable pub mark_legacy_message_secrets_migration_done_in_tx : Bool → Exec (Unit {0})
mark_legacy_message_secrets_migration_done_in_tx done = do
  prepare_cached
  execute (λ t. record t {
    epoch_migration_state =
        upsert storage_provider_version tt (i64_from done) t.epoch_migration_state;
  })
