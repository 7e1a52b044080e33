-- ===== src/Storage/GroupEpochMessageSecrets.antt =====
-- crates/kchat-storage-provider/src/group_epoch_message_secrets.rs: the message secrets of each epoch
-- of a group, and the legacy rows of the group data that they replace.
pub mod Laws
pub mod Replace
use kchat_rust_sdk.Base.{
  ℕ, Bool, ◌&&◌, ◌||◌, not, Option, none, some, List, [], ◌∷◌, reverse, Bytes, bytes_eq, take, ltb,
  ◌==◌, ok,
}
use kchat_rust_sdk.Base.Exec.{pure, lift, ◌>>=◌, ◌>>◌}
use kchat_rust_sdk.Storage.Table.{
  bytes_key, number_key, pair_key, Row, has_key, select, select_where, exists_where, upsert,
  delete_where,
}
use kchat_rust_sdk.Storage.Sqlite.{
  Text, Exec, checkout, prepare_cached, execute, query_row, query_map, optional, u64_to_sql,
  transaction, storage_provider_version,
}
use kchat_rust_sdk.Storage.Codec.{Codec, key_to_sql, key_from_sql}
use kchat_rust_sdk.Storage.GroupData.{message_secrets, data_type_to_sql}

-- `DEFAULT_MIGRATION_BATCH_SIZE`
abbrev pub default_migration_batch_size : ℕ
default_migration_batch_size = 20

-- `WHERE provider_version = ?1 AND group_id = ?2`
abbrev pub of_group : Bytes → Row (Bytes × ℕ) Bytes → Bool
of_group g r = (r.provider_version == storage_provider_version) && bytes_eq r.key.0 g

-- `… AND (epoch < ?3 OR epoch > ?4)`
abbrev pub outside_window : Bytes → ℕ → ℕ → Row (Bytes × ℕ) Bytes → Bool
outside_window g keep_from current r =
    of_group g r && (ltb r.key.1 keep_from || ltb current r.key.1)

-- `WHERE provider_version = ?1 AND data_type = ?2`
abbrev pub is_legacy : Row (Bytes × Text) Bytes → Bool
is_legacy r =
    (r.provider_version == storage_provider_version)
    && bytes_eq r.key.1 (data_type_to_sql message_secrets)

-- `… AND group_id = ?`
abbrev pub is_legacy_of : Bytes → Row (Bytes × Text) Bytes → Bool
is_legacy_of g r =
    (r.provider_version == storage_provider_version)
    && (bytes_eq r.key.0 g && bytes_eq r.key.1 (data_type_to_sql message_secrets))

unfoldable pub has_legacy_message_secrets : Exec Bool
has_legacy_message_secrets = do
  checkout
  prepare_cached
  query_row (λ t. some (exists_where is_legacy t.group_data)) (λ exists. ok exists)

module _ {G : Type 0} (group : Codec G) where
  unfoldable pub load : G → ℕ → Exec (Option Bytes)
  load group_id epoch = do
    checkout
    prepare_cached
    g ← lift (key_to_sql group group_id)
    e ← lift (u64_to_sql epoch)
    optional (
        query_row (λ t. select storage_provider_version (g, e) t.group_epoch_message_secrets)
          (λ secrets. ok secrets))

  unfoldable pub load_in_tx : G → ℕ → Exec (Option Bytes)
  load_in_tx group_id epoch = do
    prepare_cached
    g ← lift (key_to_sql group group_id)
    e ← lift (u64_to_sql epoch)
    optional (
        query_row (λ t. select storage_provider_version (g, e) t.group_epoch_message_secrets)
          (λ secrets. ok secrets))

  unfoldable pub store : G → ℕ → Bytes → Exec (Unit {0})
  store group_id epoch secrets = do
    checkout
    prepare_cached
    g ← lift (key_to_sql group group_id)
    e ← lift (u64_to_sql epoch)
    execute (λ t. record t {
      group_epoch_message_secrets =
          upsert storage_provider_version (g, e) secrets t.group_epoch_message_secrets;
    })

  unfoldable pub store_in_tx : G → ℕ → Bytes → Exec (Unit {0})
  store_in_tx group_id epoch secrets = do
    prepare_cached
    g ← lift (key_to_sql group group_id)
    e ← lift (u64_to_sql epoch)
    execute (λ t. record t {
      group_epoch_message_secrets =
          upsert storage_provider_version (g, e) secrets t.group_epoch_message_secrets;
    })

  unfoldable pub delete : G → Exec (Unit {0})
  delete group_id = do
    checkout
    prepare_cached
    g ← lift (key_to_sql group group_id)
    execute (λ t. record t {
      group_epoch_message_secrets = delete_where (of_group g) t.group_epoch_message_secrets;
    })

  unfoldable pub delete_in_tx : G → Exec (Unit {0})
  delete_in_tx group_id = do
    prepare_cached
    g ← lift (key_to_sql group group_id)
    execute (λ t. record t {
      group_epoch_message_secrets = delete_where (of_group g) t.group_epoch_message_secrets;
    })

  -- the loop of `replace_in_tx`
  unfoldable pub store_each_in_tx : G → List (ℕ × Bytes) → Exec (Unit {0})
  store_each_in_tx group_id [] = pure tt
  store_each_in_tx group_id ((epoch, bytes) ∷ rest) = do
    store_in_tx group_id epoch bytes
    store_each_in_tx group_id rest

  unfoldable pub replace_in_tx : G → List (ℕ × Bytes) → Exec (Unit {0})
  replace_in_tx group_id secrets = do delete_in_tx group_id; store_each_in_tx group_id secrets

  -- `replace_group_epoch_message_secrets` of the pool
  unfoldable pub replace : G → List (ℕ × Bytes) → Exec (Unit {0})
  replace group_id secrets = transaction (replace_in_tx group_id secrets)

  unfoldable pub prune : G → ℕ → ℕ → Exec (Unit {0})
  prune group_id keep_from_epoch current_epoch = do
    checkout
    prepare_cached
    g ← lift (key_to_sql group group_id)
    keep_from ← lift (u64_to_sql keep_from_epoch)
    current ← lift (u64_to_sql current_epoch)
    execute (λ t. record t {
      group_epoch_message_secrets =
          delete_where (outside_window g keep_from current) t.group_epoch_message_secrets;
    })

  unfoldable pub prune_in_tx : G → ℕ → ℕ → Exec (Unit {0})
  prune_in_tx group_id keep_from_epoch current_epoch = do
    prepare_cached
    g ← lift (key_to_sql group group_id)
    keep_from ← lift (u64_to_sql keep_from_epoch)
    current ← lift (u64_to_sql current_epoch)
    execute (λ t. record t {
      group_epoch_message_secrets =
          delete_where (outside_window g keep_from current) t.group_epoch_message_secrets;
    })

  unfoldable pub has_legacy_message_secrets_for_group : G → Exec Bool
  has_legacy_message_secrets_for_group group_id = do
    checkout
    prepare_cached
    g ← lift (key_to_sql group group_id)
    query_row (λ t. some (exists_where (is_legacy_of g) t.group_data)) (λ exists. ok exists)

  unfoldable pub has_legacy_message_secrets_for_group_in_tx : G → Exec Bool
  has_legacy_message_secrets_for_group_in_tx group_id = do
    prepare_cached
    g ← lift (key_to_sql group group_id)
    query_row (λ t. some (exists_where (is_legacy_of g) t.group_data)) (λ exists. ok exists)

  unfoldable pub is_migration_done : G → Exec Bool
  is_migration_done group_id = do
    legacy ← has_legacy_message_secrets_for_group group_id
    pure (not legacy)

  unfoldable pub is_migration_done_in_tx : G → Exec Bool
  is_migration_done_in_tx group_id = do
    legacy ← has_legacy_message_secrets_for_group_in_tx group_id
    pure (not legacy)

  -- `ORDER BY rowid DESC LIMIT ?3`
  unfoldable pub list_group_ids_with_message_secrets : ℕ → Exec (List G)
  list_group_ids_with_message_secrets limit = do
    checkout
    prepare_cached
    query_map (λ t. take limit (reverse (select_where is_legacy t.group_data)))
        (λ r. key_from_sql group r.key.0)
