-- ===== src/Storage/Psks.antt =====
-- crates/kchat-storage-provider/src/psks.rs: the pre-shared keys.
use kchat_rust_sdk.Base.{Option}
use kchat_rust_sdk.Base.Exec.{lift, ◌>>=◌, ◌>>◌}
use kchat_rust_sdk.Storage.Table.{bytes_key, has_key, select, insert_or_replace, delete_where}
use kchat_rust_sdk.Storage.Sqlite.{
  Exec, checkout, prepare_cached, execute, query_row, optional, storage_provider_version,
}
use kchat_rust_sdk.Storage.Codec.{Codec, key_to_sql, entity_to_sql, entity_from_sql}

module _ {K : Type 0} (key : Codec K) where
  unfoldable pub delete : K → Exec (Unit {0})
  delete psk_id = do
    checkout
    prepare_cached
    k ← lift (key_to_sql key psk_id)
    execute (λ t. record t { psks = delete_where (has_key storage_provider_version k) t.psks })

  unfoldable pub delete_in_tx : K → Exec (Unit {0})
  delete_in_tx psk_id = do
    prepare_cached
    k ← lift (key_to_sql key psk_id)
    execute (λ t. record t { psks = delete_where (has_key storage_provider_version k) t.psks })

  module _ {T : Type 0} (entity : Codec T) where
    unfoldable pub load : K → Exec (Option T)
    load psk_id = do
      checkout
      prepare_cached
      k ← lift (key_to_sql key psk_id)
      optional (query_row (λ t. select storage_provider_version k t.psks) (entity_from_sql entity))

    unfoldable pub load_in_tx : K → Exec (Option T)
    load_in_tx psk_id = do
      prepare_cached
      k ← lift (key_to_sql key psk_id)
      optional (query_row (λ t. select storage_provider_version k t.psks) (entity_from_sql entity))

    unfoldable pub store : K → T → Exec (Unit {0})
    store psk_id psk_bundle = do
      checkout
      prepare_cached
      k ← lift (key_to_sql key psk_id)
      x ← lift (entity_to_sql entity psk_bundle)
      execute (λ t. record t { psks = insert_or_replace storage_provider_version k x t.psks })

    unfoldable pub store_in_tx : K → T → Exec (Unit {0})
    store_in_tx psk_id psk_bundle = do
      prepare_cached
      k ← lift (key_to_sql key psk_id)
      x ← lift (entity_to_sql entity psk_bundle)
      execute (λ t. record t { psks = insert_or_replace storage_provider_version k x t.psks })
