-- ===== src/Storage/SignatureKeyPairs.antt =====
-- crates/kchat-storage-provider/src/signature_key_pairs.rs: the signature key pairs.
use kchat_rust_sdk.Base.{Option}
use kchat_rust_sdk.Base.Exec.{lift, ◌>>=◌, ◌>>◌}
use kchat_rust_sdk.Storage.Table.{bytes_key, has_key, select, insert_or_replace, delete_where}
use kchat_rust_sdk.Storage.Sqlite.{
  Exec, checkout, prepare_cached, execute, query_row, optional, storage_provider_version,
}
use kchat_rust_sdk.Storage.Codec.{Codec, key_to_sql, entity_to_sql, entity_from_sql}

module _ {K : Type 0} (key : Codec K) where
  unfoldable pub delete : K → Exec (Unit {0})
  delete public_key = do
    checkout
    prepare_cached
    k ← lift (key_to_sql key public_key)
    execute (λ t. record t {
      signature_keys = delete_where (has_key storage_provider_version k) t.signature_keys;
    })

  unfoldable pub delete_in_tx : K → Exec (Unit {0})
  delete_in_tx public_key = do
    prepare_cached
    k ← lift (key_to_sql key public_key)
    execute (λ t. record t {
      signature_keys = delete_where (has_key storage_provider_version k) t.signature_keys;
    })

  module _ {T : Type 0} (entity : Codec T) where
    unfoldable pub load : K → Exec (Option T)
    load public_key = do
      checkout
      prepare_cached
      k ← lift (key_to_sql key public_key)
      optional (
          query_row (λ t. select storage_provider_version k t.signature_keys)
            (entity_from_sql entity))

    unfoldable pub load_in_tx : K → Exec (Option T)
    load_in_tx public_key = do
      prepare_cached
      k ← lift (key_to_sql key public_key)
      optional (
          query_row (λ t. select storage_provider_version k t.signature_keys)
            (entity_from_sql entity))

    unfoldable pub store : K → T → Exec (Unit {0})
    store public_key signature_key = do
      checkout
      prepare_cached
      k ← lift (key_to_sql key public_key)
      x ← lift (entity_to_sql entity signature_key)
      execute (λ t. record t {
        signature_keys = insert_or_replace storage_provider_version k x t.signature_keys;
      })

    unfoldable pub store_in_tx : K → T → Exec (Unit {0})
    store_in_tx public_key signature_key = do
      prepare_cached
      k ← lift (key_to_sql key public_key)
      x ← lift (entity_to_sql entity signature_key)
      execute (λ t. record t {
        signature_keys = insert_or_replace storage_provider_version k x t.signature_keys;
      })
