-- ===== src/Storage/Provider/PoolMethods.antt =====
-- crates/kchat-storage-provider/src/group_epoch_message_secrets.rs, decrypted_application_messages.rs and
-- epoch_migration_state.rs: the methods of `SqliteStorageProvider` itself.
use kchat_rust_sdk.Base.{ℕ, Bool, Option, List, Bytes, ℤ}
use kchat_rust_sdk.Storage.Codec.{Codec}
use kchat_rust_sdk.Storage.DecryptedApplicationMessages as Decrypted
use kchat_rust_sdk.Storage.EpochMigrationState as State
use kchat_rust_sdk.Storage.GroupEpochMessageSecrets as Epochs
use kchat_rust_sdk.Storage.Sqlite.{Text, DecryptedApplicationMessage, Exec}

unfoldable pub is_legacy_message_secrets_migration_done : Exec Bool
is_legacy_message_secrets_migration_done = State.is_legacy_message_secrets_migration_done

unfoldable pub mark_legacy_message_secrets_migration_done : Bool → Exec (Unit {0})
mark_legacy_message_secrets_migration_done done =
    State.mark_legacy_message_secrets_migration_done done

unfoldable pub prune_decrypted_application_messages : ℤ → Exec (Unit {0})
prune_decrypted_application_messages now = Decrypted.prune now

unfoldable pub has_legacy_message_secrets : Exec Bool
has_legacy_message_secrets = Epochs.has_legacy_message_secrets

module _ {G : Type 0} (group : Codec G) where
  unfoldable pub load_decrypted_application_message :
      G → Text → ℤ → Exec (Option DecryptedApplicationMessage)
  load_decrypted_application_message group_id message_id now =
      Decrypted.load group group_id message_id now

  unfoldable pub insert_decrypted_application_message :
      G → Text → DecryptedApplicationMessage → Exec (Unit {0})
  insert_decrypted_application_message group_id message_id entry =
      Decrypted.insert group group_id message_id entry

  unfoldable pub delete_decrypted_application_messages : G → Exec (Unit {0})
  delete_decrypted_application_messages group_id = Decrypted.delete group group_id

  unfoldable pub is_group_epoch_message_secrets_migrated : G → Exec Bool
  is_group_epoch_message_secrets_migrated group_id = Epochs.is_migration_done group group_id

  unfoldable pub load_group_epoch_message_secrets : G → ℕ → Exec (Option Bytes)
  load_group_epoch_message_secrets group_id epoch = Epochs.load group group_id epoch

  unfoldable pub upsert_group_epoch_message_secrets : G → ℕ → Bytes → Exec (Unit {0})
  upsert_group_epoch_message_secrets group_id epoch secrets =
      Epochs.store group group_id epoch secrets

  unfoldable pub replace_group_epoch_message_secrets : G → List (ℕ × Bytes) → Exec (Unit {0})
  replace_group_epoch_message_secrets group_id secrets = Epochs.replace group group_id secrets

  unfoldable pub delete_group_epoch_message_secrets : G → Exec (Unit {0})
  delete_group_epoch_message_secrets group_id = Epochs.delete group group_id

  unfoldable pub prune_group_epoch_message_secrets : G → ℕ → ℕ → Exec (Unit {0})
  prune_group_epoch_message_secrets group_id keep_from_epoch current_epoch =
      Epochs.prune group group_id keep_from_epoch current_epoch

  unfoldable pub list_group_ids_with_message_secrets : Exec (List G)
  list_group_ids_with_message_secrets =
      Epochs.list_group_ids_with_message_secrets group Epochs.default_migration_batch_size
