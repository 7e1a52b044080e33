-- ===== src/Storage/Requests/Agree.antt =====
-- The pool and a transaction agree on every call.
use kchat_rust_sdk.Base.{◌≡◌, refl, Bool, true, false, if◌then◌else◌}
use kchat_rust_sdk.Base.Exec.{◌>>◌}
use kchat_rust_sdk.Storage.Sqlite.{checkout, transaction}
use kchat_rust_sdk.Storage.DecryptedApplicationMessages as Decrypted
use kchat_rust_sdk.Storage.EncryptionKeyPairs
use kchat_rust_sdk.Storage.EpochKeyPairs
use kchat_rust_sdk.Storage.EpochMigrationState
use kchat_rust_sdk.Storage.GroupData
use kchat_rust_sdk.Storage.GroupEpochMessageSecrets as Epochs
use kchat_rust_sdk.Storage.KeyPackages
use kchat_rust_sdk.Storage.OwnLeafNodes
use kchat_rust_sdk.Storage.Proposals
use kchat_rust_sdk.Storage.Provider.Pool
use kchat_rust_sdk.Storage.Provider.PoolGroups
use kchat_rust_sdk.Storage.Provider.PoolMethods
use kchat_rust_sdk.Storage.Provider.Tx
use kchat_rust_sdk.Storage.Provider.TxGroups
use kchat_rust_sdk.Storage.Provider.TxMethods
use kchat_rust_sdk.Storage.Psks
use kchat_rust_sdk.Storage.Requests.{
  Field, KeyTable, signature_keys, encryption_keys, key_packages, psks, Client, Request,
  write_field, delete_field, append_own_leaf_node, delete_own_leaf_nodes, queue_proposal,
  remove_proposal, clear_proposal_queue, write_epoch_secrets, replace_epoch_secrets,
  delete_epoch_secrets, prune_epoch_secrets, write_key, delete_key, write_epoch_key_pairs,
  delete_epoch_key_pairs, mark_migration_done, insert_decrypted, prune_decrypted, delete_decrypted,
  delete_group, write_field_pool, read_field_pool, delete_field_pool, write_key_pool, read_key_pool,
  delete_key_pool, run_pool, write_field_tx, read_field_tx, delete_field_tx, write_key_tx,
  read_key_tx, delete_key_tx, run_tx,
}
use kchat_rust_sdk.Storage.SignatureKeyPairs

-- The requests that the pool runs in a transaction of their own.
abbrev pub is_transaction : {c : Client} → Request c → Bool
is_transaction (replace_epoch_secrets g l) = true
is_transaction (delete_group g) = true
is_transaction request = false

module _ (c : Client) where
  write_field_pool-eq-tx :
      (f : Field) (g : c.Group) (x : c.Entity)
      → write_field_pool c f g x ≡ (checkout >> write_field_tx c f g x)
  unfolding GroupData.store GroupData.store_in_tx PoolGroups.write_mls_join_config
      PoolGroups.write_tree PoolGroups.write_interim_transcript_hash PoolGroups.write_context
      PoolGroups.write_confirmation_tag PoolGroups.write_group_state
      PoolGroups.write_message_secrets PoolGroups.write_resumption_psk_store
      PoolGroups.write_own_leaf_index PoolGroups.write_group_epoch_secrets
      PoolGroups.write_application_export_tree TxGroups.write_mls_join_config TxGroups.write_tree
      TxGroups.write_interim_transcript_hash TxGroups.write_context TxGroups.write_confirmation_tag
      TxGroups.write_group_state TxGroups.write_message_secrets TxGroups.write_resumption_psk_store
      TxGroups.write_own_leaf_index TxGroups.write_group_epoch_secrets
      TxGroups.write_application_export_tree
  write_field_pool-eq-tx Field.join_config g x = refl
  write_field_pool-eq-tx Field.tree g x = refl
  write_field_pool-eq-tx Field.interim_transcript_hash g x = refl
  write_field_pool-eq-tx Field.context g x = refl
  write_field_pool-eq-tx Field.confirmation_tag g x = refl
  write_field_pool-eq-tx Field.group_state g x = refl
  write_field_pool-eq-tx Field.message_secrets g x = refl
  write_field_pool-eq-tx Field.resumption_psk_store g x = refl
  write_field_pool-eq-tx Field.own_leaf_index g x = refl
  write_field_pool-eq-tx Field.group_epoch_secrets g x = refl
  write_field_pool-eq-tx Field.application_export_tree g x = refl

  delete_field_pool-eq-tx :
      (f : Field) (g : c.Group) → delete_field_pool c f g ≡ (checkout >> delete_field_tx c f g)
  unfolding GroupData.delete_group_data GroupData.delete_group_data_in_tx
      PoolGroups.delete_group_config PoolGroups.delete_tree
      PoolGroups.delete_interim_transcript_hash PoolGroups.delete_context
      PoolGroups.delete_confirmation_tag PoolGroups.delete_group_state
      PoolGroups.delete_message_secrets PoolGroups.delete_all_resumption_psk_secrets
      PoolGroups.delete_own_leaf_index PoolGroups.delete_group_epoch_secrets
      PoolGroups.delete_application_export_tree TxGroups.delete_group_config TxGroups.delete_tree
      TxGroups.delete_interim_transcript_hash TxGroups.delete_context
      TxGroups.delete_confirmation_tag TxGroups.delete_group_state TxGroups.delete_message_secrets
      TxGroups.delete_all_resumption_psk_secrets TxGroups.delete_own_leaf_index
      TxGroups.delete_group_epoch_secrets TxGroups.delete_application_export_tree
  delete_field_pool-eq-tx Field.join_config g = refl
  delete_field_pool-eq-tx Field.tree g = refl
  delete_field_pool-eq-tx Field.interim_transcript_hash g = refl
  delete_field_pool-eq-tx Field.context g = refl
  delete_field_pool-eq-tx Field.confirmation_tag g = refl
  delete_field_pool-eq-tx Field.group_state g = refl
  delete_field_pool-eq-tx Field.message_secrets g = refl
  delete_field_pool-eq-tx Field.resumption_psk_store g = refl
  delete_field_pool-eq-tx Field.own_leaf_index g = refl
  delete_field_pool-eq-tx Field.group_epoch_secrets g = refl
  delete_field_pool-eq-tx Field.application_export_tree g = refl

  read_field_pool-eq-tx :
      (f : Field) (g : c.Group) → read_field_pool c f g ≡ (checkout >> read_field_tx c f g)
  unfolding GroupData.load GroupData.load_in_tx PoolGroups.mls_group_join_config PoolGroups.tree
      PoolGroups.interim_transcript_hash PoolGroups.group_context PoolGroups.confirmation_tag
      PoolGroups.group_state PoolGroups.message_secrets PoolGroups.resumption_psk_store
      PoolGroups.own_leaf_index PoolGroups.group_epoch_secrets PoolGroups.application_export_tree
      TxGroups.mls_group_join_config TxGroups.tree TxGroups.interim_transcript_hash
      TxGroups.group_context TxGroups.confirmation_tag TxGroups.group_state TxGroups.message_secrets
      TxGroups.resumption_psk_store TxGroups.own_leaf_index TxGroups.group_epoch_secrets
      TxGroups.application_export_tree
  read_field_pool-eq-tx Field.join_config g = refl
  read_field_pool-eq-tx Field.tree g = refl
  read_field_pool-eq-tx Field.interim_transcript_hash g = refl
  read_field_pool-eq-tx Field.context g = refl
  read_field_pool-eq-tx Field.confirmation_tag g = refl
  read_field_pool-eq-tx Field.group_state g = refl
  read_field_pool-eq-tx Field.message_secrets g = refl
  read_field_pool-eq-tx Field.resumption_psk_store g = refl
  read_field_pool-eq-tx Field.own_leaf_index g = refl
  read_field_pool-eq-tx Field.group_epoch_secrets g = refl
  read_field_pool-eq-tx Field.application_export_tree g = refl

  write_key_pool-eq-tx :
      (t : KeyTable) (k : c.Key) (x : c.Entity)
      → write_key_pool c t k x ≡ (checkout >> write_key_tx c t k x)
  unfolding SignatureKeyPairs.store SignatureKeyPairs.store_in_tx Pool.write_signature_key_pair
      Tx.write_signature_key_pair EncryptionKeyPairs.store EncryptionKeyPairs.store_in_tx
      Pool.write_encryption_key_pair Tx.write_encryption_key_pair KeyPackages.store
      KeyPackages.store_in_tx Pool.write_key_package Tx.write_key_package Psks.store
      Psks.store_in_tx Pool.write_psk Tx.write_psk
  write_key_pool-eq-tx signature_keys k x = refl
  write_key_pool-eq-tx encryption_keys k x = refl
  write_key_pool-eq-tx key_packages k x = refl
  write_key_pool-eq-tx psks k x = refl

  read_key_pool-eq-tx :
      (t : KeyTable) (k : c.Key) → read_key_pool c t k ≡ (checkout >> read_key_tx c t k)
  unfolding SignatureKeyPairs.load SignatureKeyPairs.load_in_tx Pool.signature_key_pair
      Tx.signature_key_pair EncryptionKeyPairs.load EncryptionKeyPairs.load_in_tx
      Pool.encryption_key_pair Tx.encryption_key_pair KeyPackages.load KeyPackages.load_in_tx
      Pool.key_package Tx.key_package Psks.load Psks.load_in_tx Pool.psk Tx.psk
  read_key_pool-eq-tx signature_keys k = refl
  read_key_pool-eq-tx encryption_keys k = refl
  read_key_pool-eq-tx key_packages k = refl
  read_key_pool-eq-tx psks k = refl

  delete_key_pool-eq-tx :
      (t : KeyTable) (k : c.Key) → delete_key_pool c t k ≡ (checkout >> delete_key_tx c t k)
  unfolding SignatureKeyPairs.delete SignatureKeyPairs.delete_in_tx Pool.delete_signature_key_pair
      Tx.delete_signature_key_pair EncryptionKeyPairs.delete EncryptionKeyPairs.delete_in_tx
      Pool.delete_encryption_key_pair Tx.delete_encryption_key_pair KeyPackages.delete_key_package
      KeyPackages.delete_key_package_in_tx Pool.delete_key_package Tx.delete_key_package Psks.delete
      Psks.delete_in_tx Pool.delete_psk Tx.delete_psk
  delete_key_pool-eq-tx signature_keys k = refl
  delete_key_pool-eq-tx encryption_keys k = refl
  delete_key_pool-eq-tx key_packages k = refl
  delete_key_pool-eq-tx psks k = refl

  -- A request on the pool is the same request in a transaction after one checkout of a connection; the
  -- replacement of the epoch secrets and the deletion of a group are a transaction of their own.
  pub run_pool-eq-run_tx :
      (request : Request c)
      → run_pool c request ≡ (
          if is_transaction request
          then transaction (run_tx c request)
          else (checkout >> run_tx c request))
  unfolding PoolMethods.mark_legacy_message_secrets_migration_done
      PoolMethods.insert_decrypted_application_message
      PoolMethods.prune_decrypted_application_messages
      PoolMethods.delete_decrypted_application_messages
      TxMethods.mark_legacy_message_secrets_migration_done
      TxMethods.insert_decrypted_application_message TxMethods.prune_decrypted_application_messages
      TxMethods.delete_decrypted_application_messages Pool.append_own_leaf_node
      Pool.delete_own_leaf_nodes Pool.queue_proposal Pool.remove_proposal Pool.clear_proposal_queue
      Pool.write_group_epoch_message_secrets Pool.replace_group_epoch_message_secrets
      Pool.delete_group_epoch_message_secrets Pool.prune_group_epoch_message_secrets
      Pool.write_encryption_epoch_key_pairs Pool.delete_encryption_epoch_key_pairs
      Tx.append_own_leaf_node Tx.delete_own_leaf_nodes Tx.queue_proposal Tx.remove_proposal
      Tx.clear_proposal_queue Tx.write_group_epoch_message_secrets
      Tx.replace_group_epoch_message_secrets Tx.delete_group_epoch_message_secrets
      Tx.prune_group_epoch_message_secrets Tx.write_encryption_epoch_key_pairs
      Tx.delete_encryption_epoch_key_pairs OwnLeafNodes.store OwnLeafNodes.delete_leaf_nodes
      Proposals.store Proposals.delete_proposal Proposals.delete_all_proposals Epochs.store
      Epochs.delete Epochs.prune EpochKeyPairs.store EpochKeyPairs.delete_epoch_key_pair
      EpochMigrationState.mark_legacy_message_secrets_migration_done Decrypted.insert
      Decrypted.prune Decrypted.delete OwnLeafNodes.store_in_tx OwnLeafNodes.delete_leaf_nodes_in_tx
      Proposals.store_in_tx Proposals.delete_proposal_in_tx Proposals.delete_all_proposals_in_tx
      Epochs.store_in_tx Epochs.delete_in_tx Epochs.prune_in_tx EpochKeyPairs.store_in_tx
      EpochKeyPairs.delete_epoch_key_pair_in_tx
      EpochMigrationState.mark_legacy_message_secrets_migration_done_in_tx Decrypted.insert_in_tx
      Decrypted.prune_in_tx Decrypted.delete_in_tx Epochs.replace
  run_pool-eq-run_tx (write_field f g x) = write_field_pool-eq-tx f g x
  run_pool-eq-run_tx (delete_field f g) = delete_field_pool-eq-tx f g
  run_pool-eq-run_tx (write_key t k x) = write_key_pool-eq-tx t k x
  run_pool-eq-run_tx (delete_key t k) = delete_key_pool-eq-tx t k
  run_pool-eq-run_tx (append_own_leaf_node g x) = refl
  run_pool-eq-run_tx (delete_own_leaf_nodes g) = refl
  run_pool-eq-run_tx (queue_proposal g r x) = refl
  run_pool-eq-run_tx (remove_proposal g r) = refl
  run_pool-eq-run_tx (clear_proposal_queue g) = refl
  run_pool-eq-run_tx (write_epoch_secrets g e b) = refl
  run_pool-eq-run_tx (replace_epoch_secrets g l) = refl
  run_pool-eq-run_tx (delete_epoch_secrets g) = refl
  run_pool-eq-run_tx (prune_epoch_secrets g m n) = refl
  run_pool-eq-run_tx (write_epoch_key_pairs g e l xs) = refl
  run_pool-eq-run_tx (delete_epoch_key_pairs g e l) = refl
  run_pool-eq-run_tx (mark_migration_done b) = refl
  run_pool-eq-run_tx (insert_decrypted g m x) = refl
  run_pool-eq-run_tx (prune_decrypted now) = refl
  run_pool-eq-run_tx (delete_decrypted g) = refl
  run_pool-eq-run_tx (delete_group g) = refl
