-- ===== src/Storage/WellFormed.antt =====
-- The tables of crates/kchat-storage-provider keep their primary keys under each statement.
use kchat_rust_sdk.Base.{ℕ, refl, Bool, [], ◌∷◌, ◌++◌, Bytes}
use kchat_rust_sdk.Storage.Table.{
  Row, bytes_key, number_key, pair_key, unit_key, delete_where, insert_or_replace, insert_or_ignore,
  upsert, upsert_if,
}
use kchat_rust_sdk.Storage.Table.Invariant.{
  AllOf, Keyed, delete_where-Keyed, insert_or_replace-Keyed, insert_or_ignore-Keyed, upsert-Keyed,
  upsert_if-Keyed, delete_where-AllOf, append-AllOf,
}
use kchat_rust_sdk.Storage.Sqlite.{
  Text, Tables, DecryptedApplicationMessage, storage_provider_version,
}

-- The primary key of each table, and the version of every row.
abbrev pub WellFormed : Tables → Type 0
WellFormed t =
    Keyed storage_provider_version t.encryption_keys
    × Keyed storage_provider_version t.epoch_keys_pairs
    × Keyed storage_provider_version t.group_data
    × Keyed storage_provider_version t.key_packages
    × AllOf storage_provider_version t.own_leaf_nodes
    × Keyed storage_provider_version t.proposals
    × Keyed storage_provider_version t.psks
    × Keyed storage_provider_version t.signature_keys
    × Keyed storage_provider_version t.group_epoch_message_secrets
    × Keyed storage_provider_version t.epoch_migration_state
    × Keyed storage_provider_version t.decrypted_application_messages

pub encryption_keys_insert_or_replace-WellFormed :
    (k : Bytes) (x : Bytes) (t : Tables)
    → WellFormed t
    → WellFormed (record t {
      encryption_keys = insert_or_replace storage_provider_version k x t.encryption_keys;
    })
encryption_keys_insert_or_replace-WellFormed k x t h =
    let kept = insert_or_replace-Keyed storage_provider_version k x t.encryption_keys h.0 in
    (kept, h.1, h.2, h.3, h.4, h.5, h.6, h.7, h.8, h.9, h.10)

pub encryption_keys_delete-WellFormed :
    (p : Row (Bytes) Bytes → Bool) (t : Tables)
    → WellFormed t
    → WellFormed (record t { encryption_keys = delete_where p t.encryption_keys })
encryption_keys_delete-WellFormed p t h =
    let kept = delete_where-Keyed storage_provider_version p t.encryption_keys h.0 in
    (kept, h.1, h.2, h.3, h.4, h.5, h.6, h.7, h.8, h.9, h.10)

pub epoch_keys_pairs_insert_or_replace-WellFormed :
    (k : Bytes × (Bytes × ℕ)) (x : Bytes) (t : Tables)
    → WellFormed t
    → WellFormed (record t {
      epoch_keys_pairs = insert_or_replace storage_provider_version k x t.epoch_keys_pairs;
    })
epoch_keys_pairs_insert_or_replace-WellFormed k x t h =
    let kept = insert_or_replace-Keyed storage_provider_version k x t.epoch_keys_pairs h.1 in
    (h.0, kept, h.2, h.3, h.4, h.5, h.6, h.7, h.8, h.9, h.10)

pub epoch_keys_pairs_delete-WellFormed :
    (p : Row (Bytes × (Bytes × ℕ)) Bytes → Bool) (t : Tables)
    → WellFormed t
    → WellFormed (record t { epoch_keys_pairs = delete_where p t.epoch_keys_pairs })
epoch_keys_pairs_delete-WellFormed p t h =
    let kept = delete_where-Keyed storage_provider_version p t.epoch_keys_pairs h.1 in
    (h.0, kept, h.2, h.3, h.4, h.5, h.6, h.7, h.8, h.9, h.10)

pub group_data_insert_or_replace-WellFormed :
    (k : Bytes × Text) (x : Bytes) (t : Tables)
    → WellFormed t
    → WellFormed
        (record t { group_data = insert_or_replace storage_provider_version k x t.group_data })
group_data_insert_or_replace-WellFormed k x t h =
    let kept = insert_or_replace-Keyed storage_provider_version k x t.group_data h.2 in
    (h.0, h.1, kept, h.3, h.4, h.5, h.6, h.7, h.8, h.9, h.10)

pub group_data_delete-WellFormed :
    (p : Row (Bytes × Text) Bytes → Bool) (t : Tables)
    → WellFormed t
    → WellFormed (record t { group_data = delete_where p t.group_data })
group_data_delete-WellFormed p t h =
    let kept = delete_where-Keyed storage_provider_version p t.group_data h.2 in
    (h.0, h.1, kept, h.3, h.4, h.5, h.6, h.7, h.8, h.9, h.10)

pub key_packages_insert_or_replace-WellFormed :
    (k : Bytes) (x : Bytes) (t : Tables)
    → WellFormed t
    → WellFormed
        (record t { key_packages = insert_or_replace storage_provider_version k x t.key_packages })
key_packages_insert_or_replace-WellFormed k x t h =
    let kept = insert_or_replace-Keyed storage_provider_version k x t.key_packages h.3 in
    (h.0, h.1, h.2, kept, h.4, h.5, h.6, h.7, h.8, h.9, h.10)

pub key_packages_delete-WellFormed :
    (p : Row (Bytes) Bytes → Bool) (t : Tables)
    → WellFormed t
    → WellFormed (record t { key_packages = delete_where p t.key_packages })
key_packages_delete-WellFormed p t h =
    let kept = delete_where-Keyed storage_provider_version p t.key_packages h.3 in
    (h.0, h.1, h.2, kept, h.4, h.5, h.6, h.7, h.8, h.9, h.10)

pub leaf_insert-WellFormed :
    (g x : Bytes) (t : Tables)
    → WellFormed t
    → WellFormed (record t {
      own_leaf_nodes =
          t.own_leaf_nodes
          ++ record { provider_version = storage_provider_version; key = g; value = x } ∷ [];
    })
leaf_insert-WellFormed g x t h =
    let kept =
      append-AllOf storage_provider_version t.own_leaf_nodes
        (record { provider_version = storage_provider_version; key = g; value = x }) h.4 refl in
    (h.0, h.1, h.2, h.3, kept, h.5, h.6, h.7, h.8, h.9, h.10)

pub own_leaf_nodes_delete-WellFormed :
    (p : Row (Bytes) Bytes → Bool) (t : Tables)
    → WellFormed t
    → WellFormed (record t { own_leaf_nodes = delete_where p t.own_leaf_nodes })
own_leaf_nodes_delete-WellFormed p t h =
    let kept = delete_where-AllOf storage_provider_version p t.own_leaf_nodes h.4 in
    (h.0, h.1, h.2, h.3, kept, h.5, h.6, h.7, h.8, h.9, h.10)

pub proposals_insert_or_ignore-WellFormed :
    (k : Bytes × Bytes) (x : Bytes) (t : Tables)
    → WellFormed t
    → WellFormed
        (record t { proposals = insert_or_ignore storage_provider_version k x t.proposals })
proposals_insert_or_ignore-WellFormed k x t h =
    let kept = insert_or_ignore-Keyed storage_provider_version k x t.proposals h.5 in
    (h.0, h.1, h.2, h.3, h.4, kept, h.6, h.7, h.8, h.9, h.10)

pub proposals_delete-WellFormed :
    (p : Row (Bytes × Bytes) Bytes → Bool) (t : Tables)
    → WellFormed t
    → WellFormed (record t { proposals = delete_where p t.proposals })
proposals_delete-WellFormed p t h =
    let kept = delete_where-Keyed storage_provider_version p t.proposals h.5 in
    (h.0, h.1, h.2, h.3, h.4, kept, h.6, h.7, h.8, h.9, h.10)

pub psks_insert_or_replace-WellFormed :
    (k : Bytes) (x : Bytes) (t : Tables)
    → WellFormed t
    → WellFormed (record t { psks = insert_or_replace storage_provider_version k x t.psks })
psks_insert_or_replace-WellFormed k x t h =
    let kept = insert_or_replace-Keyed storage_provider_version k x t.psks h.6 in
    (h.0, h.1, h.2, h.3, h.4, h.5, kept, h.7, h.8, h.9, h.10)

pub psks_delete-WellFormed :
    (p : Row (Bytes) Bytes → Bool) (t : Tables)
    → WellFormed t
    → WellFormed (record t { psks = delete_where p t.psks })
psks_delete-WellFormed p t h =
    let kept = delete_where-Keyed storage_provider_version p t.psks h.6 in
    (h.0, h.1, h.2, h.3, h.4, h.5, kept, h.7, h.8, h.9, h.10)

pub signature_keys_insert_or_replace-WellFormed :
    (k : Bytes) (x : Bytes) (t : Tables)
    → WellFormed t
    → WellFormed (record t {
      signature_keys = insert_or_replace storage_provider_version k x t.signature_keys;
    })
signature_keys_insert_or_replace-WellFormed k x t h =
    let kept = insert_or_replace-Keyed storage_provider_version k x t.signature_keys h.7 in
    (h.0, h.1, h.2, h.3, h.4, h.5, h.6, kept, h.8, h.9, h.10)

pub signature_keys_delete-WellFormed :
    (p : Row (Bytes) Bytes → Bool) (t : Tables)
    → WellFormed t
    → WellFormed (record t { signature_keys = delete_where p t.signature_keys })
signature_keys_delete-WellFormed p t h =
    let kept = delete_where-Keyed storage_provider_version p t.signature_keys h.7 in
    (h.0, h.1, h.2, h.3, h.4, h.5, h.6, kept, h.8, h.9, h.10)

pub group_epoch_message_secrets_upsert-WellFormed :
    (k : Bytes × ℕ) (x : Bytes) (t : Tables)
    → WellFormed t
    → WellFormed (record t {
      group_epoch_message_secrets =
          upsert storage_provider_version k x t.group_epoch_message_secrets;
    })
group_epoch_message_secrets_upsert-WellFormed k x t h =
    let kept = upsert-Keyed storage_provider_version k x t.group_epoch_message_secrets h.8 in
    (h.0, h.1, h.2, h.3, h.4, h.5, h.6, h.7, kept, h.9, h.10)

pub group_epoch_message_secrets_delete-WellFormed :
    (p : Row (Bytes × ℕ) Bytes → Bool) (t : Tables)
    → WellFormed t
    → WellFormed
        (record t { group_epoch_message_secrets = delete_where p t.group_epoch_message_secrets })
group_epoch_message_secrets_delete-WellFormed p t h =
    let kept = delete_where-Keyed storage_provider_version p t.group_epoch_message_secrets h.8 in
    (h.0, h.1, h.2, h.3, h.4, h.5, h.6, h.7, kept, h.9, h.10)

pub epoch_migration_state_upsert-WellFormed :
    (k : Unit {0}) (x : ℕ) (t : Tables)
    → WellFormed t
    → WellFormed (record t {
      epoch_migration_state = upsert storage_provider_version k x t.epoch_migration_state;
    })
epoch_migration_state_upsert-WellFormed k x t h =
    let kept = upsert-Keyed storage_provider_version k x t.epoch_migration_state h.9 in
    (h.0, h.1, h.2, h.3, h.4, h.5, h.6, h.7, h.8, kept, h.10)

pub decrypted_application_messages_upsert_if-WellFormed :
    (p : DecryptedApplicationMessage → Bool) (k : Bytes × Text) (x : DecryptedApplicationMessage)
    (t : Tables)
    → WellFormed t
    → WellFormed (record t {
      decrypted_application_messages =
          upsert_if p storage_provider_version k x t.decrypted_application_messages;
    })
decrypted_application_messages_upsert_if-WellFormed p k x t h =
    let kept =
      upsert_if-Keyed p storage_provider_version k x t.decrypted_application_messages h.10 in
    (h.0, h.1, h.2, h.3, h.4, h.5, h.6, h.7, h.8, h.9, kept)

pub decrypted_application_messages_delete-WellFormed :
    (p : Row (Bytes × Text) DecryptedApplicationMessage → Bool) (t : Tables)
    → WellFormed t
    → WellFormed (record t {
      decrypted_application_messages = delete_where p t.decrypted_application_messages;
    })
decrypted_application_messages_delete-WellFormed p t h =
    let kept =
      delete_where-Keyed storage_provider_version p t.decrypted_application_messages h.10 in
    (h.0, h.1, h.2, h.3, h.4, h.5, h.6, h.7, h.8, h.9, kept)

pub ruleset well_formed_rules = (
  encryption_keys_insert_or_replace-WellFormed, encryption_keys_delete-WellFormed,
  epoch_keys_pairs_insert_or_replace-WellFormed, epoch_keys_pairs_delete-WellFormed,
  group_data_insert_or_replace-WellFormed, group_data_delete-WellFormed,
  key_packages_insert_or_replace-WellFormed, key_packages_delete-WellFormed, leaf_insert-WellFormed,
  own_leaf_nodes_delete-WellFormed, proposals_insert_or_ignore-WellFormed,
  proposals_delete-WellFormed, psks_insert_or_replace-WellFormed, psks_delete-WellFormed,
  signature_keys_insert_or_replace-WellFormed, signature_keys_delete-WellFormed,
  group_epoch_message_secrets_upsert-WellFormed, group_epoch_message_secrets_delete-WellFormed,
  epoch_migration_state_upsert-WellFormed, decrypted_application_messages_upsert_if-WellFormed,
  decrypted_application_messages_delete-WellFormed,
)
