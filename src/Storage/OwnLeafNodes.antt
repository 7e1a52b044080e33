-- ===== src/Storage/OwnLeafNodes.antt =====
-- crates/kchat-storage-provider/src/own_leaf_nodes.rs: the leaf nodes of a group. The primary key of
-- the table is the rowid, so a store is always a new row.
use kchat_rust_sdk.Base.{List, [], ◌∷◌, ◌++◌}
use kchat_rust_sdk.Base.Exec.{lift, ◌>>=◌, ◌>>◌}
use kchat_rust_sdk.Storage.Table.{bytes_key, has_key, select_where, delete_where, values}
use kchat_rust_sdk.Storage.Sqlite.{
  Exec, Scan, checkout, prepare_cached, execute, query_map, storage_provider_version,
}
use kchat_rust_sdk.Storage.Codec.{Codec, key_to_sql, entity_to_sql, entity_from_sql}

module _ {G : Type 0} (group : Codec G) where
  unfoldable pub delete_leaf_nodes : G → Exec (Unit {0})
  delete_leaf_nodes group_id = do
    checkout
    prepare_cached
    g ← lift (key_to_sql group group_id)
    execute (λ t. record t {
      own_leaf_nodes = delete_where (has_key storage_provider_version g) t.own_leaf_nodes;
    })

  unfoldable pub delete_leaf_nodes_in_tx : G → Exec (Unit {0})
  delete_leaf_nodes_in_tx group_id = do
    prepare_cached
    g ← lift (key_to_sql group group_id)
    execute (λ t. record t {
      own_leaf_nodes = delete_where (has_key storage_provider_version g) t.own_leaf_nodes;
    })

  module _ {T : Type 0} (entity : Codec T) where
    unfoldable pub load : Scan → G → Exec (List T)
    load scan group_id = do
      checkout
      prepare_cached
      g ← lift (key_to_sql group group_id)
      query_map
          (λ t.
            values
              (scan.order (select_where (has_key storage_provider_version g) t.own_leaf_nodes)))
          (entity_from_sql entity)

    unfoldable pub load_in_tx : Scan → G → Exec (List T)
    load_in_tx scan group_id = do
      prepare_cached
      g ← lift (key_to_sql group group_id)
      query_map
          (λ t.
            values
              (scan.order (select_where (has_key storage_provider_version g) t.own_leaf_nodes)))
          (entity_from_sql entity)

    unfoldable pub store : G → T → Exec (Unit {0})
    store group_id leaf_node = do
      checkout
      prepare_cached
      g ← lift (key_to_sql group group_id)
      x ← lift (entity_to_sql entity leaf_node)
      execute (λ t. record t {
        own_leaf_nodes =
            t.own_leaf_nodes
            ++ record { provider_version = storage_provider_version; key = g; value = x } ∷ [];
      })

    unfoldable pub store_in_tx : G → T → Exec (Unit {0})
    store_in_tx group_id leaf_node = do
      prepare_cached
      g ← lift (key_to_sql group group_id)
      x ← lift (entity_to_sql entity leaf_node)
      execute (λ t. record t {
        own_leaf_nodes =
            t.own_leaf_nodes
            ++ record { provider_version = storage_provider_version; key = g; value = x } ∷ [];
      })
