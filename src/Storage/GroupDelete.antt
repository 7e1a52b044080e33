-- ===== src/Storage/GroupDelete.antt =====
-- crates/kchat-storage-provider/src/group_delete.rs: the removal of every row of a group.
pub mod Laws
use kchat_rust_sdk.Base.{ℕ, Bool, ◌&&◌, List, [], ◌∷◌, ◌++◌, codes, Bytes, bytes_eq, ◌==◌}
use kchat_rust_sdk.Base.Exec.{pure, lift, ◌>>=◌, ◌>>◌}
use kchat_rust_sdk.Storage.Table.{Row, Table, delete_where}
use kchat_rust_sdk.Storage.Sqlite.{
  Text, Tables, Exec, prepare_cached, execute, sqlite_error_context, map_err,
  storage_provider_version,
}
use kchat_rust_sdk.Storage.Codec.{Codec, key_to_sql}

-- The tables that the loop names.
pub data GroupTable : Type 0 where
  openmls_group_data openmls_epoch_keys_pairs openmls_own_leaf_nodes : GroupTable
  openmls_proposals openmls_group_epoch_message_secrets : GroupTable
  openmls_decrypted_application_messages : GroupTable

abbrev pub group_tables : List GroupTable
group_tables =
    openmls_group_data ∷ openmls_epoch_keys_pairs ∷ openmls_own_leaf_nodes ∷ openmls_proposals
    ∷ openmls_group_epoch_message_secrets ∷ openmls_decrypted_application_messages ∷ []

unfoldable pub table_name : GroupTable → Text
table_name openmls_group_data = codes "openmls_group_data"
table_name openmls_epoch_keys_pairs = codes "openmls_epoch_keys_pairs"
table_name openmls_own_leaf_nodes = codes "openmls_own_leaf_nodes"
table_name openmls_proposals = codes "openmls_proposals"
table_name openmls_group_epoch_message_secrets = codes "openmls_group_epoch_message_secrets"
table_name openmls_decrypted_application_messages = codes "openmls_decrypted_application_messages"

-- `WHERE provider_version = ?1 AND group_id = ?2`, in a table whose key gives the group
abbrev pub in_group : {K V : Type 0} → (K → Bytes) → Bytes → Row K V → Bool
in_group group_of g r =
    (r.provider_version == storage_provider_version) && bytes_eq (group_of r.key) g

unfoldable pub delete_from : GroupTable → Bytes → Tables → Tables
delete_from openmls_group_data g t = record t {
  group_data = delete_where (in_group (λ k. k.0) g) t.group_data;
}
delete_from openmls_epoch_keys_pairs g t = record t {
  epoch_keys_pairs = delete_where (in_group (λ k. k.0) g) t.epoch_keys_pairs;
}
delete_from openmls_own_leaf_nodes g t = record t {
  own_leaf_nodes = delete_where (in_group (λ k. k) g) t.own_leaf_nodes;
}
delete_from openmls_proposals g t = record t {
  proposals = delete_where (in_group (λ k. k.0) g) t.proposals;
}
delete_from openmls_group_epoch_message_secrets g t = record t {
  group_epoch_message_secrets = delete_where (in_group (λ k. k.0) g) t.group_epoch_message_secrets;
}
delete_from openmls_decrypted_application_messages g t = record t {
  decrypted_application_messages =
      delete_where (in_group (λ k. k.0) g) t.decrypted_application_messages;
}

-- `display` and `debug` are the texts of an error code.
module _ {G : Type 0} (group : Codec G) (display debug : ℕ → Text) where
  -- one round of the loop
  unfoldable pub delete_from_table : G → GroupTable → Exec (Unit {0})
  delete_from_table group_id table =
      map_err
        (sqlite_error_context display debug (codes "delete_group MLS table " ++ table_name table))
        (do prepare_cached; g ← lift (key_to_sql group group_id); execute (delete_from table g))

  unfoldable pub delete_from_tables : G → List GroupTable → Exec (Unit {0})
  delete_from_tables group_id [] = pure tt
  delete_from_tables group_id (table ∷ rest) = do
    delete_from_table group_id table
    delete_from_tables group_id rest

  unfoldable pub delete_group_by_id : G → Exec (Unit {0})
  delete_group_by_id group_id = delete_from_tables group_id group_tables
