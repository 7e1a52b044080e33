-- ===== src/Storage/Requests.antt =====
-- The changes that a client of crates/kchat-storage-provider makes, as values: each is one call of the
-- crate's interface, on the pool and in a transaction.
pub mod Fields
pub mod WellFormed
pub mod Agree
use kchat_rust_sdk.Base.{ℕ, Bool, Option, List, Bytes, ℤ}
use kchat_rust_sdk.Storage.Sqlite.{Text, DecryptedApplicationMessage, Exec, transaction}
use kchat_rust_sdk.Storage.Codec.{Codec}
use kchat_rust_sdk.Storage.GroupDelete.{delete_group_by_id}
use kchat_rust_sdk.Storage.Provider.Pool
use kchat_rust_sdk.Storage.Provider.PoolGroups
use kchat_rust_sdk.Storage.Provider.PoolMethods
use kchat_rust_sdk.Storage.Provider.Tx
use kchat_rust_sdk.Storage.Provider.TxGroups
use kchat_rust_sdk.Storage.Provider.TxMethods

-- The group data that OpenMLS writes.
pub data Field : Type 0 where
  join_config tree interim_transcript_hash context confirmation_tag group_state : Field
  message_secrets resumption_psk_store own_leaf_index group_epoch_secrets : Field
  application_export_tree : Field

-- The tables of one key.
pub data KeyTable : Type 0 where
  signature_keys encryption_keys key_packages psks : KeyTable

-- The types of a client, with the codec at each of them.
pub record Client : Type 1 where
  pub Group : Type 0
  pub Key : Type 0
  pub Epoch : Type 0
  pub Entity : Type 0
  pub Reference : Type 0
  pub group : Codec Group
  pub key : Codec Key
  pub epoch : Codec Epoch
  pub entity : Codec Entity
  pub entities : Codec (List Entity)
  pub reference : Codec Reference
  pub display_code : ℕ → Text
  pub debug_code : ℕ → Text

module _ (c : Client) where
  open c use {Group, Key, Epoch, Entity, Reference, group, key, epoch, entity, entities, reference}

  pub data Request : Type 0 where
    write_field : Field → Group → Entity → Request
    delete_field : Field → Group → Request
    append_own_leaf_node : Group → Entity → Request
    delete_own_leaf_nodes : Group → Request
    queue_proposal : Group → Reference → Entity → Request
    remove_proposal : Group → Reference → Request
    clear_proposal_queue : Group → Request
    write_epoch_secrets : Group → ℕ → Bytes → Request
    replace_epoch_secrets : Group → List (ℕ × Bytes) → Request
    delete_epoch_secrets : Group → Request
    prune_epoch_secrets : Group → ℕ → ℕ → Request
    write_key : KeyTable → Key → Entity → Request
    delete_key : KeyTable → Key → Request
    write_epoch_key_pairs : Group → Epoch → ℕ → List Entity → Request
    delete_epoch_key_pairs : Group → Epoch → ℕ → Request
    mark_migration_done : Bool → Request
    insert_decrypted : Group → Text → DecryptedApplicationMessage → Request
    prune_decrypted : ℤ → Request
    delete_decrypted : Group → Request
    delete_group : Group → Request

  abbrev pub write_field_pool : Field → Group → Entity → Exec (Unit {0})
  write_field_pool Field.join_config g x = PoolGroups.write_mls_join_config group entity g x
  write_field_pool Field.tree g x = PoolGroups.write_tree group entity g x
  write_field_pool Field.interim_transcript_hash g x =
      PoolGroups.write_interim_transcript_hash group entity g x
  write_field_pool Field.context g x = PoolGroups.write_context group entity g x
  write_field_pool Field.confirmation_tag g x = PoolGroups.write_confirmation_tag group entity g x
  write_field_pool Field.group_state g x = PoolGroups.write_group_state group entity g x
  write_field_pool Field.message_secrets g x = PoolGroups.write_message_secrets group entity g x
  write_field_pool Field.resumption_psk_store g x =
      PoolGroups.write_resumption_psk_store group entity g x
  write_field_pool Field.own_leaf_index g x = PoolGroups.write_own_leaf_index group entity g x
  write_field_pool Field.group_epoch_secrets g x =
      PoolGroups.write_group_epoch_secrets group entity g x
  write_field_pool Field.application_export_tree g x =
      PoolGroups.write_application_export_tree group entity g x

  abbrev pub read_field_pool : Field → Group → Exec (Option Entity)
  read_field_pool Field.join_config g = PoolGroups.mls_group_join_config group entity g
  read_field_pool Field.tree g = PoolGroups.tree group entity g
  read_field_pool Field.interim_transcript_hash g =
      PoolGroups.interim_transcript_hash group entity g
  read_field_pool Field.context g = PoolGroups.group_context group entity g
  read_field_pool Field.confirmation_tag g = PoolGroups.confirmation_tag group entity g
  read_field_pool Field.group_state g = PoolGroups.group_state group entity g
  read_field_pool Field.message_secrets g = PoolGroups.message_secrets group entity g
  read_field_pool Field.resumption_psk_store g = PoolGroups.resumption_psk_store group entity g
  read_field_pool Field.own_leaf_index g = PoolGroups.own_leaf_index group entity g
  read_field_pool Field.group_epoch_secrets g = PoolGroups.group_epoch_secrets group entity g
  read_field_pool Field.application_export_tree g =
      PoolGroups.application_export_tree group entity g

  abbrev pub delete_field_pool : Field → Group → Exec (Unit {0})
  delete_field_pool Field.join_config g = PoolGroups.delete_group_config group g
  delete_field_pool Field.tree g = PoolGroups.delete_tree group g
  delete_field_pool Field.interim_transcript_hash g =
      PoolGroups.delete_interim_transcript_hash group g
  delete_field_pool Field.context g = PoolGroups.delete_context group g
  delete_field_pool Field.confirmation_tag g = PoolGroups.delete_confirmation_tag group g
  delete_field_pool Field.group_state g = PoolGroups.delete_group_state group g
  delete_field_pool Field.message_secrets g = PoolGroups.delete_message_secrets group g
  delete_field_pool Field.resumption_psk_store g =
      PoolGroups.delete_all_resumption_psk_secrets group g
  delete_field_pool Field.own_leaf_index g = PoolGroups.delete_own_leaf_index group g
  delete_field_pool Field.group_epoch_secrets g = PoolGroups.delete_group_epoch_secrets group g
  delete_field_pool Field.application_export_tree g =
      PoolGroups.delete_application_export_tree group g

  abbrev pub write_key_pool : KeyTable → Key → Entity → Exec (Unit {0})
  write_key_pool signature_keys k x = Pool.write_signature_key_pair key entity k x
  write_key_pool encryption_keys k x = Pool.write_encryption_key_pair key entity k x
  write_key_pool key_packages k x = Pool.write_key_package key entity k x
  write_key_pool psks k x = Pool.write_psk key entity k x

  abbrev pub read_key_pool : KeyTable → Key → Exec (Option Entity)
  read_key_pool signature_keys k = Pool.signature_key_pair key entity k
  read_key_pool encryption_keys k = Pool.encryption_key_pair key entity k
  read_key_pool key_packages k = Pool.key_package key entity k
  read_key_pool psks k = Pool.psk key entity k

  abbrev pub delete_key_pool : KeyTable → Key → Exec (Unit {0})
  delete_key_pool signature_keys k = Pool.delete_signature_key_pair key k
  delete_key_pool encryption_keys k = Pool.delete_encryption_key_pair key k
  delete_key_pool key_packages k = Pool.delete_key_package key k
  delete_key_pool psks k = Pool.delete_psk key k

  abbrev pub run_pool : Request → Exec (Unit {0})
  run_pool (write_field f g x) = write_field_pool f g x
  run_pool (delete_field f g) = delete_field_pool f g
  run_pool (append_own_leaf_node g x) = Pool.append_own_leaf_node group entity g x
  run_pool (delete_own_leaf_nodes g) = Pool.delete_own_leaf_nodes group g
  run_pool (queue_proposal g r x) = Pool.queue_proposal group reference entity g r x
  run_pool (remove_proposal g r) = Pool.remove_proposal group reference g r
  run_pool (clear_proposal_queue g) = Pool.clear_proposal_queue group g
  run_pool (write_epoch_secrets g e b) = Pool.write_group_epoch_message_secrets group g e b
  run_pool (replace_epoch_secrets g l) = Pool.replace_group_epoch_message_secrets group g l
  run_pool (delete_epoch_secrets g) = Pool.delete_group_epoch_message_secrets group g
  run_pool (prune_epoch_secrets g m n) = Pool.prune_group_epoch_message_secrets group g m n
  run_pool (write_key t k x) = write_key_pool t k x
  run_pool (delete_key t k) = delete_key_pool t k
  run_pool (write_epoch_key_pairs g e l xs) =
      Pool.write_encryption_epoch_key_pairs group epoch entities g e l xs
  run_pool (delete_epoch_key_pairs g e l) = Pool.delete_encryption_epoch_key_pairs group epoch g e l
  run_pool (mark_migration_done b) = PoolMethods.mark_legacy_message_secrets_migration_done b
  run_pool (insert_decrypted g m x) = PoolMethods.insert_decrypted_application_message group g m x
  run_pool (prune_decrypted now) = PoolMethods.prune_decrypted_application_messages now
  run_pool (delete_decrypted g) = PoolMethods.delete_decrypted_application_messages group g
  run_pool (delete_group g) = transaction (delete_group_by_id group c.display_code c.debug_code g)

  abbrev pub write_field_tx : Field → Group → Entity → Exec (Unit {0})
  write_field_tx Field.join_config g x = TxGroups.write_mls_join_config group entity g x
  write_field_tx Field.tree g x = TxGroups.write_tree group entity g x
  write_field_tx Field.interim_transcript_hash g x =
      TxGroups.write_interim_transcript_hash group entity g x
  write_field_tx Field.context g x = TxGroups.write_context group entity g x
  write_field_tx Field.confirmation_tag g x = TxGroups.write_confirmation_tag group entity g x
  write_field_tx Field.group_state g x = TxGroups.write_group_state group entity g x
  write_field_tx Field.message_secrets g x = TxGroups.write_message_secrets group entity g x
  write_field_tx Field.resumption_psk_store g x =
      TxGroups.write_resumption_psk_store group entity g x
  write_field_tx Field.own_leaf_index g x = TxGroups.write_own_leaf_index group entity g x
  write_field_tx Field.group_epoch_secrets g x = TxGroups.write_group_epoch_secrets group entity g x
  write_field_tx Field.application_export_tree g x =
      TxGroups.write_application_export_tree group entity g x

  abbrev pub read_field_tx : Field → Group → Exec (Option Entity)
  read_field_tx Field.join_config g = TxGroups.mls_group_join_config group entity g
  read_field_tx Field.tree g = TxGroups.tree group entity g
  read_field_tx Field.interim_transcript_hash g = TxGroups.interim_transcript_hash group entity g
  read_field_tx Field.context g = TxGroups.group_context group entity g
  read_field_tx Field.confirmation_tag g = TxGroups.confirmation_tag group entity g
  read_field_tx Field.group_state g = TxGroups.group_state group entity g
  read_field_tx Field.message_secrets g = TxGroups.message_secrets group entity g
  read_field_tx Field.resumption_psk_store g = TxGroups.resumption_psk_store group entity g
  read_field_tx Field.own_leaf_index g = TxGroups.own_leaf_index group entity g
  read_field_tx Field.group_epoch_secrets g = TxGroups.group_epoch_secrets group entity g
  read_field_tx Field.application_export_tree g = TxGroups.application_export_tree group entity g

  abbrev pub delete_field_tx : Field → Group → Exec (Unit {0})
  delete_field_tx Field.join_config g = TxGroups.delete_group_config group g
  delete_field_tx Field.tree g = TxGroups.delete_tree group g
  delete_field_tx Field.interim_transcript_hash g = TxGroups.delete_interim_transcript_hash group g
  delete_field_tx Field.context g = TxGroups.delete_context group g
  delete_field_tx Field.confirmation_tag g = TxGroups.delete_confirmation_tag group g
  delete_field_tx Field.group_state g = TxGroups.delete_group_state group g
  delete_field_tx Field.message_secrets g = TxGroups.delete_message_secrets group g
  delete_field_tx Field.resumption_psk_store g = TxGroups.delete_all_resumption_psk_secrets group g
  delete_field_tx Field.own_leaf_index g = TxGroups.delete_own_leaf_index group g
  delete_field_tx Field.group_epoch_secrets g = TxGroups.delete_group_epoch_secrets group g
  delete_field_tx Field.application_export_tree g = TxGroups.delete_application_export_tree group g

  abbrev pub write_key_tx : KeyTable → Key → Entity → Exec (Unit {0})
  write_key_tx signature_keys k x = Tx.write_signature_key_pair key entity k x
  write_key_tx encryption_keys k x = Tx.write_encryption_key_pair key entity k x
  write_key_tx key_packages k x = Tx.write_key_package key entity k x
  write_key_tx psks k x = Tx.write_psk key entity k x

  abbrev pub read_key_tx : KeyTable → Key → Exec (Option Entity)
  read_key_tx signature_keys k = Tx.signature_key_pair key entity k
  read_key_tx encryption_keys k = Tx.encryption_key_pair key entity k
  read_key_tx key_packages k = Tx.key_package key entity k
  read_key_tx psks k = Tx.psk key entity k

  abbrev pub delete_key_tx : KeyTable → Key → Exec (Unit {0})
  delete_key_tx signature_keys k = Tx.delete_signature_key_pair key k
  delete_key_tx encryption_keys k = Tx.delete_encryption_key_pair key k
  delete_key_tx key_packages k = Tx.delete_key_package key k
  delete_key_tx psks k = Tx.delete_psk key k

  abbrev pub run_tx : Request → Exec (Unit {0})
  run_tx (write_field f g x) = write_field_tx f g x
  run_tx (delete_field f g) = delete_field_tx f g
  run_tx (append_own_leaf_node g x) = Tx.append_own_leaf_node group entity g x
  run_tx (delete_own_leaf_nodes g) = Tx.delete_own_leaf_nodes group g
  run_tx (queue_proposal g r x) = Tx.queue_proposal group reference entity g r x
  run_tx (remove_proposal g r) = Tx.remove_proposal group reference g r
  run_tx (clear_proposal_queue g) = Tx.clear_proposal_queue group g
  run_tx (write_epoch_secrets g e b) = Tx.write_group_epoch_message_secrets group g e b
  run_tx (replace_epoch_secrets g l) = Tx.replace_group_epoch_message_secrets group g l
  run_tx (delete_epoch_secrets g) = Tx.delete_group_epoch_message_secrets group g
  run_tx (prune_epoch_secrets g m n) = Tx.prune_group_epoch_message_secrets group g m n
  run_tx (write_key t k x) = write_key_tx t k x
  run_tx (delete_key t k) = delete_key_tx t k
  run_tx (write_epoch_key_pairs g e l xs) =
      Tx.write_encryption_epoch_key_pairs group epoch entities g e l xs
  run_tx (delete_epoch_key_pairs g e l) = Tx.delete_encryption_epoch_key_pairs group epoch g e l
  run_tx (mark_migration_done b) = TxMethods.mark_legacy_message_secrets_migration_done b
  run_tx (insert_decrypted g m x) = TxMethods.insert_decrypted_application_message group g m x
  run_tx (prune_decrypted now) = TxMethods.prune_decrypted_application_messages now
  run_tx (delete_decrypted g) = TxMethods.delete_decrypted_application_messages group g
  run_tx (delete_group g) = delete_group_by_id group c.display_code c.debug_code g
