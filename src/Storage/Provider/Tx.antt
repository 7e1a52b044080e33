-- ===== src/Storage/Provider/Tx.antt =====
-- crates/kchat-storage-provider/src/storage_provider.rs: `StorageProvider` for
-- `TransactionalStorageProvider`, but for the group data.
use kchat_rust_sdk.Base.{ℕ, Bool, true, Option, List, Bytes}
use kchat_rust_sdk.Storage.Sqlite.{Scan, Exec}
use kchat_rust_sdk.Storage.Codec.{Codec}
use kchat_rust_sdk.Storage.EncryptionKeyPairs
use kchat_rust_sdk.Storage.EpochKeyPairs
use kchat_rust_sdk.Storage.GroupEpochMessageSecrets as Epochs
use kchat_rust_sdk.Storage.KeyPackages
use kchat_rust_sdk.Storage.OwnLeafNodes
use kchat_rust_sdk.Storage.Proposals
use kchat_rust_sdk.Storage.Psks
use kchat_rust_sdk.Storage.SignatureKeyPairs

abbrev pub supports_epoch_message_secrets : Bool
supports_epoch_message_secrets = true

module _ {K T : Type 0} (key : Codec K) (entity : Codec T) where
  unfoldable pub write_signature_key_pair : K → T → Exec (Unit {0})
  write_signature_key_pair public_key payload =
      SignatureKeyPairs.store_in_tx key entity public_key payload

  unfoldable pub write_encryption_key_pair : K → T → Exec (Unit {0})
  write_encryption_key_pair public_key payload =
      EncryptionKeyPairs.store_in_tx key entity public_key payload

  unfoldable pub write_key_package : K → T → Exec (Unit {0})
  write_key_package hash_ref payload = KeyPackages.store_in_tx key entity hash_ref payload

  unfoldable pub write_psk : K → T → Exec (Unit {0})
  write_psk psk_id payload = Psks.store_in_tx key entity psk_id payload

  unfoldable pub signature_key_pair : K → Exec (Option T)
  signature_key_pair public_key = SignatureKeyPairs.load_in_tx key entity public_key

  unfoldable pub encryption_key_pair : K → Exec (Option T)
  encryption_key_pair public_key = EncryptionKeyPairs.load_in_tx key entity public_key

  unfoldable pub key_package : K → Exec (Option T)
  key_package hash_ref = KeyPackages.load_in_tx key entity hash_ref

  unfoldable pub psk : K → Exec (Option T)
  psk psk_id = Psks.load_in_tx key entity psk_id

module _ {K : Type 0} (key : Codec K) where
  unfoldable pub delete_signature_key_pair : K → Exec (Unit {0})
  delete_signature_key_pair public_key = SignatureKeyPairs.delete_in_tx key public_key

  unfoldable pub delete_encryption_key_pair : K → Exec (Unit {0})
  delete_encryption_key_pair public_key = EncryptionKeyPairs.delete_in_tx key public_key

  unfoldable pub delete_key_package : K → Exec (Unit {0})
  delete_key_package hash_ref = KeyPackages.delete_key_package_in_tx key hash_ref

  unfoldable pub delete_psk : K → Exec (Unit {0})
  delete_psk psk_id = Psks.delete_in_tx key psk_id

module _ {G : Type 0} (group : Codec G) where
  unfoldable pub delete_own_leaf_nodes : G → Exec (Unit {0})
  delete_own_leaf_nodes group_id = OwnLeafNodes.delete_leaf_nodes_in_tx group group_id

  unfoldable pub clear_proposal_queue : G → Exec (Unit {0})
  clear_proposal_queue group_id = Proposals.delete_all_proposals_in_tx group group_id

  unfoldable pub is_group_epoch_message_secrets_migrated : G → Exec Bool
  is_group_epoch_message_secrets_migrated group_id = Epochs.is_migration_done_in_tx group group_id

  unfoldable pub group_epoch_message_secrets : G → ℕ → Exec (Option Bytes)
  group_epoch_message_secrets group_id epoch = Epochs.load_in_tx group group_id epoch

  unfoldable pub write_group_epoch_message_secrets : G → ℕ → Bytes → Exec (Unit {0})
  write_group_epoch_message_secrets group_id epoch secrets =
      Epochs.store_in_tx group group_id epoch secrets

  unfoldable pub replace_group_epoch_message_secrets : G → List (ℕ × Bytes) → Exec (Unit {0})
  replace_group_epoch_message_secrets group_id secrets = Epochs.replace_in_tx group group_id secrets

  unfoldable pub delete_group_epoch_message_secrets : G → Exec (Unit {0})
  delete_group_epoch_message_secrets group_id = Epochs.delete_in_tx group group_id

  unfoldable pub prune_group_epoch_message_secrets : G → ℕ → ℕ → Exec (Unit {0})
  prune_group_epoch_message_secrets group_id keep_from_epoch current_epoch =
      Epochs.prune_in_tx group group_id keep_from_epoch current_epoch

  module _ {T : Type 0} (entity : Codec T) where
    unfoldable pub append_own_leaf_node : G → T → Exec (Unit {0})
    append_own_leaf_node group_id leaf_node =
        OwnLeafNodes.store_in_tx group entity group_id leaf_node

    unfoldable pub own_leaf_nodes : Scan → G → Exec (List T)
    own_leaf_nodes scan group_id = OwnLeafNodes.load_in_tx group entity scan group_id

  module _ {R : Type 0} (reference : Codec R) where
    unfoldable pub remove_proposal : G → R → Exec (Unit {0})
    remove_proposal group_id proposal_ref =
        Proposals.delete_proposal_in_tx group reference group_id proposal_ref

    unfoldable pub queued_proposal_refs : Scan → G → Exec (List R)
    queued_proposal_refs scan group_id = Proposals.load_refs_in_tx group reference scan group_id

    module _ {P : Type 0} (proposal : Codec P) where
      unfoldable pub queue_proposal : G → R → P → Exec (Unit {0})
      queue_proposal group_id proposal_ref queued =
          Proposals.store_in_tx group reference proposal group_id proposal_ref queued

      unfoldable pub queued_proposals : Scan → G → Exec (List (R × P))
      queued_proposals scan group_id = Proposals.load_in_tx group reference proposal scan group_id

module _ {G E : Type 0} (group : Codec G) (epoch_key : Codec E) where
  unfoldable pub delete_encryption_epoch_key_pairs : G → E → ℕ → Exec (Unit {0})
  delete_encryption_epoch_key_pairs group_id epoch leaf_index =
      EpochKeyPairs.delete_epoch_key_pair_in_tx group epoch_key group_id epoch leaf_index

  module _ {T : Type 0} (key_pair : Codec (List T)) where
    unfoldable pub write_encryption_epoch_key_pairs : G → E → ℕ → List T → Exec (Unit {0})
    write_encryption_epoch_key_pairs group_id epoch leaf_index key_pairs =
        EpochKeyPairs.store_in_tx group epoch_key key_pair group_id epoch leaf_index key_pairs

    unfoldable pub encryption_epoch_key_pairs : G → E → ℕ → Exec (List T)
    encryption_epoch_key_pairs group_id epoch leaf_index =
        EpochKeyPairs.load_in_tx group epoch_key key_pair group_id epoch leaf_index
