-- ===== src/Storage/KeyPackages.antt =====
-- crates/kchat-storage-provider/src/key_packages.rs: the key packages.
use kchat_rust_sdk.Base.{Option}
use kchat_rust_sdk.Base.Exec.{lift, ◌>>=◌, ◌>>◌}
use kchat_rust_sdk.Storage.Table.{bytes_key, has_key, select, insert_or_replace, delete_where}
use kchat_rust_sdk.Storage.Sqlite.{
  Exec, checkout, prepare_cached, execute, query_row, optional, storage_provider_version,
}
use kchat_rust_sdk.Storage.Codec.{Codec, key_to_sql, entity_to_sql, entity_from_sql}

module _ {K : Type 0} (key : Codec K) where
  unfoldable pub delete_key_package : K → Exec (Unit {0})
  delete_key_package key_package_ref = do
    checkout
    prepare_cached
    k ← lift (key_to_sql key key_package_ref)
    execute (λ t. record t {
      key_packages = delete_where (has_key storage_provider_version k) t.key_packages;
    })

  unfoldable pub delete_key_package_in_tx : K → Exec (Unit {0})
  delete_key_package_in_tx key_package_ref = do
    prepare_cached
    k ← lift (key_to_sql key key_package_ref)
    execute (λ t. record t {
      key_packages = delete_where (has_key storage_provider_version k) t.key_packages;
    })

  module _ {T : Type 0} (entity : Codec T) where
    unfoldable pub load : K → Exec (Option T)
    load key_package_ref = do
      checkout
      prepare_cached
      k ← lift (key_to_sql key key_package_ref)
      optional (
          query_row (λ t. select storage_provider_version k t.key_packages)
            (entity_from_sql entity))

    unfoldable pub load_in_tx : K → Exec (Option T)
    load_in_tx key_package_ref = do
      prepare_cached
      k ← lift (key_to_sql key key_package_ref)
      optional (
          query_row (λ t. select storage_provider_version k t.key_packages)
            (entity_from_sql entity))

    unfoldable pub store : K → T → Exec (Unit {0})
    store key_package_ref key_package = do
      checkout
      prepare_cached
      k ← lift (key_to_sql key key_package_ref)
      x ← lift (entity_to_sql entity key_package)
      execute (λ t. record t {
        key_packages = insert_or_replace storage_provider_version k x t.key_packages;
      })

    unfoldable pub store_in_tx : K → T → Exec (Unit {0})
    store_in_tx key_package_ref key_package = do
      prepare_cached
      k ← lift (key_to_sql key key_package_ref)
      x ← lift (entity_to_sql entity key_package)
      execute (λ t. record t {
        key_packages = insert_or_replace storage_provider_version k x t.key_packages;
      })
