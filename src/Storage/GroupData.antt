-- ===== src/Storage/GroupData.antt =====
-- crates/kchat-storage-provider/src/group_data.rs: one entity for each group and kind of data.
pub mod Laws
use kchat_rust_sdk.Base.{Option, Bytes, bytes_eq, codes, if◌then◌else◌, Result, ok, err}
use kchat_rust_sdk.Base.Exec.{lift, ◌>>=◌, ◌>>◌}
use kchat_rust_sdk.Storage.Table.{
  bytes_key, pair_key, has_key, select, insert_or_replace, delete_where,
}
use kchat_rust_sdk.Storage.Sqlite.{
  Text, Fallible, from_sql_conversion_failure, Exec, checkout, prepare_cached, execute, query_row,
  optional, storage_provider_version,
}
use kchat_rust_sdk.Storage.Codec.{Codec, key_to_sql, entity_to_sql, entity_from_sql}

pub data GroupDataType : Type 0 where
  join_group_config tree interim_transcript_hash context confirmation_tag group_state :
      GroupDataType
  message_secrets resumption_psk_store own_leaf_index use_ratchet_tree_extension group_epoch_secrets
        application_export_tree :
      GroupDataType

-- `ToSql`
unfoldable pub data_type_to_sql : GroupDataType → Text
data_type_to_sql join_group_config = codes "join_group_config"
data_type_to_sql tree = codes "tree"
data_type_to_sql interim_transcript_hash = codes "interim_transcript_hash"
data_type_to_sql context = codes "context"
data_type_to_sql confirmation_tag = codes "confirmation_tag"
data_type_to_sql group_state = codes "group_state"
data_type_to_sql message_secrets = codes "message_secrets"
data_type_to_sql resumption_psk_store = codes "resumption_psk_store"
data_type_to_sql own_leaf_index = codes "own_leaf_index"
data_type_to_sql use_ratchet_tree_extension = codes "use_ratchet_tree_extension"
data_type_to_sql group_epoch_secrets = codes "group_epoch_secrets"
data_type_to_sql application_export_tree = codes "application_export_tree"

-- `FromSql`
unfoldable pub data_type_from_sql : Text → Fallible GroupDataType
data_type_from_sql value =
    if bytes_eq value (codes "join_group_config")
    then ok join_group_config
    else if bytes_eq value (codes "tree")
    then ok tree
    else if bytes_eq value (codes "interim_transcript_hash")
    then ok interim_transcript_hash
    else if bytes_eq value (codes "context")
    then ok context
    else if bytes_eq value (codes "confirmation_tag")
    then ok confirmation_tag
    else if bytes_eq value (codes "group_state")
    then ok group_state
    else if bytes_eq value (codes "message_secrets")
    then ok message_secrets
    else if bytes_eq value (codes "resumption_psk_store")
    then ok resumption_psk_store
    else if bytes_eq value (codes "own_leaf_index")
    then ok own_leaf_index
    else if bytes_eq value (codes "use_ratchet_tree_extension")
    then ok use_ratchet_tree_extension
    else if bytes_eq value (codes "group_epoch_secrets")
    then ok group_epoch_secrets
    else if bytes_eq value (codes "application_export_tree")
    then ok application_export_tree
    else err from_sql_conversion_failure

module _ {G : Type 0} (group : Codec G) where
  unfoldable pub delete_group_data : G → GroupDataType → Exec (Unit {0})
  delete_group_data group_id data_type = do
    checkout
    prepare_cached
    g ← lift (key_to_sql group group_id)
    execute (λ t. record t {
      group_data =
          delete_where (has_key storage_provider_version (g, data_type_to_sql data_type))
            t.group_data;
    })

  unfoldable pub delete_group_data_in_tx : G → GroupDataType → Exec (Unit {0})
  delete_group_data_in_tx group_id data_type = do
    prepare_cached
    g ← lift (key_to_sql group group_id)
    execute (λ t. record t {
      group_data =
          delete_where (has_key storage_provider_version (g, data_type_to_sql data_type))
            t.group_data;
    })

  module _ {T : Type 0} (entity : Codec T) where
    unfoldable pub load : G → GroupDataType → Exec (Option T)
    load group_id data_type = do
      checkout
      prepare_cached
      g ← lift (key_to_sql group group_id)
      optional (
          query_row
            (λ t. select storage_provider_version (g, data_type_to_sql data_type) t.group_data)
            (entity_from_sql entity))

    unfoldable pub load_in_tx : G → GroupDataType → Exec (Option T)
    load_in_tx group_id data_type = do
      prepare_cached
      g ← lift (key_to_sql group group_id)
      optional (
          query_row
            (λ t. select storage_provider_version (g, data_type_to_sql data_type) t.group_data)
            (entity_from_sql entity))

    unfoldable pub store : G → GroupDataType → T → Exec (Unit {0})
    store group_id data_type payload = do
      checkout
      prepare_cached
      g ← lift (key_to_sql group group_id)
      x ← lift (entity_to_sql entity payload)
      execute (λ t. record t {
        group_data =
            insert_or_replace storage_provider_version (g, data_type_to_sql data_type) x
              t.group_data;
      })

    unfoldable pub store_in_tx : G → GroupDataType → T → Exec (Unit {0})
    store_in_tx group_id data_type payload = do
      prepare_cached
      g ← lift (key_to_sql group group_id)
      x ← lift (entity_to_sql entity payload)
      execute (λ t. record t {
        group_data =
            insert_or_replace storage_provider_version (g, data_type_to_sql data_type) x
              t.group_data;
      })
