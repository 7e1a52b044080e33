-- ===== src/Storage/Provider/PoolGroups.antt =====
-- crates/kchat-storage-provider/src/storage_provider.rs: the group data of `StorageProvider` for
-- `SqliteStorageProvider`.
use kchat_rust_sdk.Base.{Option}
use kchat_rust_sdk.Storage.Sqlite.{Exec}
use kchat_rust_sdk.Storage.Codec.{Codec}
use kchat_rust_sdk.Storage.GroupData
use kchat_rust_sdk.Storage.GroupData.{GroupDataType}

module _ {G : Type 0} (group : Codec G) where
  unfoldable pub delete_group_config : G → Exec (Unit {0})
  delete_group_config group_id =
      GroupData.delete_group_data group group_id GroupDataType.join_group_config

  unfoldable pub delete_tree : G → Exec (Unit {0})
  delete_tree group_id = GroupData.delete_group_data group group_id GroupDataType.tree

  unfoldable pub delete_confirmation_tag : G → Exec (Unit {0})
  delete_confirmation_tag group_id =
      GroupData.delete_group_data group group_id GroupDataType.confirmation_tag

  unfoldable pub delete_group_state : G → Exec (Unit {0})
  delete_group_state group_id = GroupData.delete_group_data group group_id GroupDataType.group_state

  unfoldable pub delete_context : G → Exec (Unit {0})
  delete_context group_id = GroupData.delete_group_data group group_id GroupDataType.context

  unfoldable pub delete_interim_transcript_hash : G → Exec (Unit {0})
  delete_interim_transcript_hash group_id =
      GroupData.delete_group_data group group_id GroupDataType.interim_transcript_hash

  unfoldable pub delete_message_secrets : G → Exec (Unit {0})
  delete_message_secrets group_id =
      GroupData.delete_group_data group group_id GroupDataType.message_secrets

  unfoldable pub delete_all_resumption_psk_secrets : G → Exec (Unit {0})
  delete_all_resumption_psk_secrets group_id =
      GroupData.delete_group_data group group_id GroupDataType.resumption_psk_store

  unfoldable pub delete_own_leaf_index : G → Exec (Unit {0})
  delete_own_leaf_index group_id =
      GroupData.delete_group_data group group_id GroupDataType.own_leaf_index

  unfoldable pub delete_group_epoch_secrets : G → Exec (Unit {0})
  delete_group_epoch_secrets group_id =
      GroupData.delete_group_data group group_id GroupDataType.group_epoch_secrets

  unfoldable pub delete_application_export_tree : G → Exec (Unit {0})
  delete_application_export_tree group_id =
      GroupData.delete_group_data group group_id GroupDataType.application_export_tree

  module _ {T : Type 0} (entity : Codec T) where
    unfoldable pub write_mls_join_config : G → T → Exec (Unit {0})
    write_mls_join_config group_id payload =
        GroupData.store group entity group_id GroupDataType.join_group_config payload

    unfoldable pub write_tree : G → T → Exec (Unit {0})
    write_tree group_id payload = GroupData.store group entity group_id GroupDataType.tree payload

    unfoldable pub write_interim_transcript_hash : G → T → Exec (Unit {0})
    write_interim_transcript_hash group_id payload =
        GroupData.store group entity group_id GroupDataType.interim_transcript_hash payload

    unfoldable pub write_context : G → T → Exec (Unit {0})
    write_context group_id payload =
        GroupData.store group entity group_id GroupDataType.context payload

    unfoldable pub write_confirmation_tag : G → T → Exec (Unit {0})
    write_confirmation_tag group_id payload =
        GroupData.store group entity group_id GroupDataType.confirmation_tag payload

    unfoldable pub write_group_state : G → T → Exec (Unit {0})
    write_group_state group_id payload =
        GroupData.store group entity group_id GroupDataType.group_state payload

    unfoldable pub write_message_secrets : G → T → Exec (Unit {0})
    write_message_secrets group_id payload =
        GroupData.store group entity group_id GroupDataType.message_secrets payload

    unfoldable pub write_resumption_psk_store : G → T → Exec (Unit {0})
    write_resumption_psk_store group_id payload =
        GroupData.store group entity group_id GroupDataType.resumption_psk_store payload

    unfoldable pub write_own_leaf_index : G → T → Exec (Unit {0})
    write_own_leaf_index group_id payload =
        GroupData.store group entity group_id GroupDataType.own_leaf_index payload

    unfoldable pub write_group_epoch_secrets : G → T → Exec (Unit {0})
    write_group_epoch_secrets group_id payload =
        GroupData.store group entity group_id GroupDataType.group_epoch_secrets payload

    unfoldable pub write_application_export_tree : G → T → Exec (Unit {0})
    write_application_export_tree group_id payload =
        GroupData.store group entity group_id GroupDataType.application_export_tree payload

    unfoldable pub mls_group_join_config : G → Exec (Option T)
    mls_group_join_config group_id =
        GroupData.load group entity group_id GroupDataType.join_group_config

    unfoldable pub tree : G → Exec (Option T)
    tree group_id = GroupData.load group entity group_id GroupDataType.tree

    unfoldable pub group_context : G → Exec (Option T)
    group_context group_id = GroupData.load group entity group_id GroupDataType.context

    unfoldable pub interim_transcript_hash : G → Exec (Option T)
    interim_transcript_hash group_id =
        GroupData.load group entity group_id GroupDataType.interim_transcript_hash

    unfoldable pub confirmation_tag : G → Exec (Option T)
    confirmation_tag group_id = GroupData.load group entity group_id GroupDataType.confirmation_tag

    unfoldable pub group_state : G → Exec (Option T)
    group_state group_id = GroupData.load group entity group_id GroupDataType.group_state

    unfoldable pub message_secrets : G → Exec (Option T)
    message_secrets group_id = GroupData.load group entity group_id GroupDataType.message_secrets

    unfoldable pub resumption_psk_store : G → Exec (Option T)
    resumption_psk_store group_id =
        GroupData.load group entity group_id GroupDataType.resumption_psk_store

    unfoldable pub own_leaf_index : G → Exec (Option T)
    own_leaf_index group_id = GroupData.load group entity group_id GroupDataType.own_leaf_index

    unfoldable pub group_epoch_secrets : G → Exec (Option T)
    group_epoch_secrets group_id =
        GroupData.load group entity group_id GroupDataType.group_epoch_secrets

    unfoldable pub application_export_tree : G → Exec (Option T)
    application_export_tree group_id =
        GroupData.load group entity group_id GroupDataType.application_export_tree
