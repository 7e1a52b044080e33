-- ===== src/Storage/Requests/WellFormed.antt =====
-- No request breaks the primary keys of the tables.
use kchat_rust_sdk.Base.{subst, sym, Bool, true, false, List, [], ◌∷◌, Bytes, if◌then◌else◌}
use kchat_rust_sdk.Base.Exec.{◌>>◌}
use kchat_rust_sdk.Storage.DecryptedApplicationMessages as Decrypted
use kchat_rust_sdk.Storage.EncryptionKeyPairs
use kchat_rust_sdk.Storage.EpochKeyPairs
use kchat_rust_sdk.Storage.EpochMigrationState
use kchat_rust_sdk.Storage.GroupData
use kchat_rust_sdk.Storage.GroupDelete.{
  GroupTable, openmls_group_data, openmls_epoch_keys_pairs, openmls_own_leaf_nodes,
  openmls_proposals, openmls_group_epoch_message_secrets, openmls_decrypted_application_messages,
  group_tables, delete_from, delete_from_table, delete_from_tables, delete_group_by_id,
}
use kchat_rust_sdk.Storage.GroupEpochMessageSecrets as Epochs
use kchat_rust_sdk.Storage.GroupEpochMessageSecrets.Replace.{replace_in_tx-Keeps}
use kchat_rust_sdk.Storage.KeyPackages
use kchat_rust_sdk.Storage.OwnLeafNodes
use kchat_rust_sdk.Storage.Proposals
use kchat_rust_sdk.Storage.Provider.Tx
use kchat_rust_sdk.Storage.Provider.TxGroups
use kchat_rust_sdk.Storage.Provider.TxMethods
use kchat_rust_sdk.Storage.Psks
use kchat_rust_sdk.Storage.Requests.{
  Field, KeyTable, signature_keys, encryption_keys, key_packages, psks, Client, Request,
  write_field, delete_field, append_own_leaf_node, delete_own_leaf_nodes, queue_proposal,
  remove_proposal, clear_proposal_queue, write_epoch_secrets, replace_epoch_secrets,
  delete_epoch_secrets, prune_epoch_secrets, write_key, delete_key, write_epoch_key_pairs,
  delete_epoch_key_pairs, mark_migration_done, insert_decrypted, prune_decrypted, delete_decrypted,
  delete_group, run_pool, write_field_tx, delete_field_tx, write_key_tx, delete_key_tx, run_tx,
}
use kchat_rust_sdk.Storage.Requests.Agree.{is_transaction, run_pool-eq-run_tx}
use kchat_rust_sdk.Storage.SignatureKeyPairs
use kchat_rust_sdk.Storage.Sqlite.{Tables, Database, Exec, checkout, transaction}
use kchat_rust_sdk.Storage.Sqlite.Keeps.{
  Keeps, Keeps-checkout, Keeps-then, Keeps-transaction, keeps_rules,
}
use kchat_rust_sdk.Storage.Table.{bytes_key, number_key, pair_key}
use kchat_rust_sdk.Storage.WellFormed.{
  WellFormed, well_formed_rules, group_epoch_message_secrets_upsert-WellFormed,
  group_data_delete-WellFormed, epoch_keys_pairs_delete-WellFormed,
  own_leaf_nodes_delete-WellFormed, proposals_delete-WellFormed,
  group_epoch_message_secrets_delete-WellFormed, decrypted_application_messages_delete-WellFormed,
}

delete_from-WellFormed :
    (table : GroupTable) (g : Bytes) (t : Tables)
    → WellFormed t
    → WellFormed (delete_from table g t)
unfolding delete_from
delete_from-WellFormed openmls_group_data g t = group_data_delete-WellFormed _ t
delete_from-WellFormed openmls_epoch_keys_pairs g t = epoch_keys_pairs_delete-WellFormed _ t
delete_from-WellFormed openmls_own_leaf_nodes g t = own_leaf_nodes_delete-WellFormed _ t
delete_from-WellFormed openmls_proposals g t = proposals_delete-WellFormed _ t
delete_from-WellFormed openmls_group_epoch_message_secrets g t =
    group_epoch_message_secrets_delete-WellFormed _ t
delete_from-WellFormed openmls_decrypted_application_messages g t =
    decrypted_application_messages_delete-WellFormed _ t

module _ (c : Client) where
  write_field-Keeps :
      (f : Field) (g : c.Group) (x : c.Entity) → Keeps WellFormed (write_field_tx c f g x)
  unfolding GroupData.store_in_tx TxGroups.write_mls_join_config TxGroups.write_tree
      TxGroups.write_interim_transcript_hash TxGroups.write_context TxGroups.write_confirmation_tag
      TxGroups.write_group_state TxGroups.write_message_secrets TxGroups.write_resumption_psk_store
      TxGroups.write_own_leaf_index TxGroups.write_group_epoch_secrets
      TxGroups.write_application_export_tree
  write_field-Keeps Field.join_config g x = search (keeps_rules, well_formed_rules) depth 9
  write_field-Keeps Field.tree g x = search (keeps_rules, well_formed_rules) depth 9
  write_field-Keeps Field.interim_transcript_hash g x =
      search (keeps_rules, well_formed_rules) depth 9
  write_field-Keeps Field.context g x = search (keeps_rules, well_formed_rules) depth 9
  write_field-Keeps Field.confirmation_tag g x = search (keeps_rules, well_formed_rules) depth 9
  write_field-Keeps Field.group_state g x = search (keeps_rules, well_formed_rules) depth 9
  write_field-Keeps Field.message_secrets g x = search (keeps_rules, well_formed_rules) depth 9
  write_field-Keeps Field.resumption_psk_store g x = search (keeps_rules, well_formed_rules) depth 9
  write_field-Keeps Field.own_leaf_index g x = search (keeps_rules, well_formed_rules) depth 9
  write_field-Keeps Field.group_epoch_secrets g x = search (keeps_rules, well_formed_rules) depth 9
  write_field-Keeps Field.application_export_tree g x =
      search (keeps_rules, well_formed_rules) depth 9

  delete_field-Keeps : (f : Field) (g : c.Group) → Keeps WellFormed (delete_field_tx c f g)
  unfolding GroupData.delete_group_data_in_tx TxGroups.delete_group_config TxGroups.delete_tree
      TxGroups.delete_interim_transcript_hash TxGroups.delete_context
      TxGroups.delete_confirmation_tag TxGroups.delete_group_state TxGroups.delete_message_secrets
      TxGroups.delete_all_resumption_psk_secrets TxGroups.delete_own_leaf_index
      TxGroups.delete_group_epoch_secrets TxGroups.delete_application_export_tree
  delete_field-Keeps Field.join_config g = search (keeps_rules, well_formed_rules) depth 9
  delete_field-Keeps Field.tree g = search (keeps_rules, well_formed_rules) depth 9
  delete_field-Keeps Field.interim_transcript_hash g =
      search (keeps_rules, well_formed_rules) depth 9
  delete_field-Keeps Field.context g = search (keeps_rules, well_formed_rules) depth 9
  delete_field-Keeps Field.confirmation_tag g = search (keeps_rules, well_formed_rules) depth 9
  delete_field-Keeps Field.group_state g = search (keeps_rules, well_formed_rules) depth 9
  delete_field-Keeps Field.message_secrets g = search (keeps_rules, well_formed_rules) depth 9
  delete_field-Keeps Field.resumption_psk_store g = search (keeps_rules, well_formed_rules) depth 9
  delete_field-Keeps Field.own_leaf_index g = search (keeps_rules, well_formed_rules) depth 9
  delete_field-Keeps Field.group_epoch_secrets g = search (keeps_rules, well_formed_rules) depth 9
  delete_field-Keeps Field.application_export_tree g =
      search (keeps_rules, well_formed_rules) depth 9

  write_key-Keeps :
      (t : KeyTable) (k : c.Key) (x : c.Entity) → Keeps WellFormed (write_key_tx c t k x)
  unfolding SignatureKeyPairs.store_in_tx Tx.write_signature_key_pair EncryptionKeyPairs.store_in_tx
      Tx.write_encryption_key_pair KeyPackages.store_in_tx Tx.write_key_package Psks.store_in_tx
      Tx.write_psk
  write_key-Keeps signature_keys k x = search (keeps_rules, well_formed_rules) depth 9
  write_key-Keeps encryption_keys k x = search (keeps_rules, well_formed_rules) depth 9
  write_key-Keeps key_packages k x = search (keeps_rules, well_formed_rules) depth 9
  write_key-Keeps psks k x = search (keeps_rules, well_formed_rules) depth 9

  delete_key-Keeps : (t : KeyTable) (k : c.Key) → Keeps WellFormed (delete_key_tx c t k)
  unfolding SignatureKeyPairs.delete_in_tx Tx.delete_signature_key_pair
      EncryptionKeyPairs.delete_in_tx Tx.delete_encryption_key_pair
      KeyPackages.delete_key_package_in_tx Tx.delete_key_package Psks.delete_in_tx Tx.delete_psk
  delete_key-Keeps signature_keys k = search (keeps_rules, well_formed_rules) depth 9
  delete_key-Keeps encryption_keys k = search (keeps_rules, well_formed_rules) depth 9
  delete_key-Keeps key_packages k = search (keeps_rules, well_formed_rules) depth 9
  delete_key-Keeps psks k = search (keeps_rules, well_formed_rules) depth 9

  delete_table-Keeps :
      (g : c.Group) (t : GroupTable)
      → Keeps WellFormed (delete_from_table c.group c.display_code c.debug_code g t)
  unfolding delete_from_table
  delete_table-Keeps g t = search (keeps_rules, delete_from-WellFormed) depth 9

  delete_tables-Keeps :
      (g : c.Group) (l : List GroupTable)
      → Keeps WellFormed (delete_from_tables c.group c.display_code c.debug_code g l)
  unfolding delete_from_tables
  delete_tables-Keeps g [] = search keeps_rules
  delete_tables-Keeps g (t ∷ l) = Keeps-then _ _ (delete_table-Keeps g t) (delete_tables-Keeps g l)

  run_tx-Keeps : (request : Request c) → Keeps WellFormed (run_tx c request)
  unfolding Tx.append_own_leaf_node Tx.delete_own_leaf_nodes Tx.queue_proposal Tx.remove_proposal
      Tx.clear_proposal_queue Tx.write_group_epoch_message_secrets
      Tx.replace_group_epoch_message_secrets Tx.delete_group_epoch_message_secrets
      Tx.prune_group_epoch_message_secrets Tx.write_encryption_epoch_key_pairs
      Tx.delete_encryption_epoch_key_pairs TxMethods.mark_legacy_message_secrets_migration_done
      TxMethods.insert_decrypted_application_message TxMethods.prune_decrypted_application_messages
      TxMethods.delete_decrypted_application_messages OwnLeafNodes.store_in_tx
      OwnLeafNodes.delete_leaf_nodes_in_tx Proposals.store_in_tx Proposals.delete_proposal_in_tx
      Proposals.delete_all_proposals_in_tx Epochs.store_in_tx Epochs.delete_in_tx Epochs.prune_in_tx
      EpochKeyPairs.store_in_tx EpochKeyPairs.delete_epoch_key_pair_in_tx
      EpochMigrationState.mark_legacy_message_secrets_migration_done_in_tx Decrypted.insert_in_tx
      Decrypted.insert_in_connection Decrypted.prune_in_tx Decrypted.prune_in_connection
      Decrypted.delete_in_tx Decrypted.delete_in_connection delete_group_by_id
  run_tx-Keeps (write_field f g x) = write_field-Keeps f g x
  run_tx-Keeps (delete_field f g) = delete_field-Keeps f g
  run_tx-Keeps (write_key t k x) = write_key-Keeps t k x
  run_tx-Keeps (delete_key t k) = delete_key-Keeps t k
  run_tx-Keeps (append_own_leaf_node g x) = search (keeps_rules, well_formed_rules) depth 9
  run_tx-Keeps (delete_own_leaf_nodes g) = search (keeps_rules, well_formed_rules) depth 9
  run_tx-Keeps (queue_proposal g r x) = search (keeps_rules, well_formed_rules) depth 9
  run_tx-Keeps (remove_proposal g r) = search (keeps_rules, well_formed_rules) depth 9
  run_tx-Keeps (clear_proposal_queue g) = search (keeps_rules, well_formed_rules) depth 9
  run_tx-Keeps (write_epoch_secrets g e b) = search (keeps_rules, well_formed_rules) depth 9
  run_tx-Keeps (delete_epoch_secrets g) = search (keeps_rules, well_formed_rules) depth 9
  run_tx-Keeps (prune_epoch_secrets g m n) = search (keeps_rules, well_formed_rules) depth 9
  run_tx-Keeps (write_epoch_key_pairs g e l xs) = search (keeps_rules, well_formed_rules) depth 9
  run_tx-Keeps (delete_epoch_key_pairs g e l) = search (keeps_rules, well_formed_rules) depth 9
  run_tx-Keeps (mark_migration_done b) = search (keeps_rules, well_formed_rules) depth 9
  run_tx-Keeps (insert_decrypted g m x) = search (keeps_rules, well_formed_rules) depth 9
  run_tx-Keeps (prune_decrypted now) = search (keeps_rules, well_formed_rules) depth 9
  run_tx-Keeps (delete_decrypted g) = search (keeps_rules, well_formed_rules) depth 9
  run_tx-Keeps (replace_epoch_secrets g l) =
      replace_in_tx-Keeps WellFormed
        (
          group_epoch_message_secrets_upsert-WellFormed,
          group_epoch_message_secrets_delete-WellFormed,
        )
        c.group g l
  run_tx-Keeps (delete_group g) = delete_tables-Keeps g group_tables

  own_transaction-Keeps :
      (b : Bool) (m : Exec (Unit {0}))
      → Keeps WellFormed m
      → Keeps WellFormed (if b then transaction m else (checkout >> m))
  own_transaction-Keeps true m k = Keeps-transaction m k
  own_transaction-Keeps false m k = Keeps-then checkout m Keeps-checkout k

  run_pool-Keeps : (request : Request c) → Keeps WellFormed (run_pool c request)
  run_pool-Keeps request =
      subst (λ m. Keeps WellFormed m) (sym (run_pool-eq-run_tx c request))
        (own_transaction-Keeps (is_transaction request) (run_tx c request) (run_tx-Keeps request))

  -- Requests one after the other on the pool, each whether or not those before it failed.
  unfoldable pub run_requests : List (Request c) → Database → Database
  run_requests [] db = db
  run_requests (request ∷ rest) db = run_requests rest (run_pool c request db).1

  -- From tables that have their primary keys and only rows of the crate's version, any sequence of
  -- requests, with SQLite failing at any of its calls, leads to such tables again.
  pub run_requests-WellFormed :
      (requests : List (Request c)) (db : Database)
      → WellFormed db.tables
      → WellFormed (run_requests requests db).tables
  unfolding run_requests
  run_requests-WellFormed [] db h = h
  run_requests-WellFormed (request ∷ rest) db h =
      run_requests-WellFormed rest (run_pool c request db).1 ((run_pool-Keeps request).after db h)
