-- ===== src/Storage/EpochKeyPairs.antt =====
-- crates/kchat-storage-provider/src/epoch_key_pairs.rs: the encryption keys of an epoch of a group.
use kchat_rust_sdk.Base.{ℕ, Option, none, some, List, []}
use kchat_rust_sdk.Base.Exec.{pure, lift, ◌>>=◌, ◌>>◌}
use kchat_rust_sdk.Storage.Table.{
  bytes_key, number_key, pair_key, has_key, select, insert_or_replace, delete_where,
}
use kchat_rust_sdk.Storage.Sqlite.{
  Exec, checkout, prepare_cached, execute, query_row, optional, storage_provider_version,
}
use kchat_rust_sdk.Storage.Codec.{Codec, key_to_sql, slice_to_sql, vec_from_sql}

abbrev pub unwrap_or_default : {T : Type 0} → Option (List T) → List T
unwrap_or_default none = []
unwrap_or_default (some xs) = xs

module _ {G E : Type 0} (group : Codec G) (epoch_key : Codec E) where
  unfoldable pub delete_epoch_key_pair : G → E → ℕ → Exec (Unit {0})
  delete_epoch_key_pair group_id epoch leaf_index = do
    checkout
    prepare_cached
    g ← lift (key_to_sql group group_id)
    e ← lift (key_to_sql epoch_key epoch)
    execute (λ t. record t {
      epoch_keys_pairs =
          delete_where (has_key storage_provider_version (g, (e, leaf_index))) t.epoch_keys_pairs;
    })

  unfoldable pub delete_epoch_key_pair_in_tx : G → E → ℕ → Exec (Unit {0})
  delete_epoch_key_pair_in_tx group_id epoch leaf_index = do
    prepare_cached
    g ← lift (key_to_sql group group_id)
    e ← lift (key_to_sql epoch_key epoch)
    execute (λ t. record t {
      epoch_keys_pairs =
          delete_where (has_key storage_provider_version (g, (e, leaf_index))) t.epoch_keys_pairs;
    })

  module _ {T : Type 0} (key_pair : Codec (List T)) where
    unfoldable pub load : G → E → ℕ → Exec (List T)
    load group_id epoch_id leaf_index = do
      checkout
      prepare_cached
      g ← lift (key_to_sql group group_id)
      e ← lift (key_to_sql epoch_key epoch_id)
      found ← optional (
          query_row (λ t. select storage_provider_version (g, (e, leaf_index)) t.epoch_keys_pairs)
            (vec_from_sql key_pair))
      pure (unwrap_or_default found)

    unfoldable pub load_in_tx : G → E → ℕ → Exec (List T)
    load_in_tx group_id epoch_id leaf_index = do
      prepare_cached
      g ← lift (key_to_sql group group_id)
      e ← lift (key_to_sql epoch_key epoch_id)
      found ← optional (
          query_row (λ t. select storage_provider_version (g, (e, leaf_index)) t.epoch_keys_pairs)
            (vec_from_sql key_pair))
      pure (unwrap_or_default found)

    unfoldable pub store : G → E → ℕ → List T → Exec (Unit {0})
    store group_id epoch_id leaf_index key_pairs = do
      checkout
      prepare_cached
      g ← lift (key_to_sql group group_id)
      e ← lift (key_to_sql epoch_key epoch_id)
      x ← lift (slice_to_sql key_pair key_pairs)
      execute (λ t. record t {
        epoch_keys_pairs =
            insert_or_replace storage_provider_version (g, (e, leaf_index)) x t.epoch_keys_pairs;
      })

    unfoldable pub store_in_tx : G → E → ℕ → List T → Exec (Unit {0})
    store_in_tx group_id epoch_id leaf_index key_pairs = do
      prepare_cached
      g ← lift (key_to_sql group group_id)
      e ← lift (key_to_sql epoch_key epoch_id)
      x ← lift (slice_to_sql key_pair key_pairs)
      execute (λ t. record t {
        epoch_keys_pairs =
            insert_or_replace storage_provider_version (g, (e, leaf_index)) x t.epoch_keys_pairs;
      })
