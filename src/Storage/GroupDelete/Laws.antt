-- ===== src/Storage/GroupDelete/Laws.antt =====
-- What is left of a group that was deleted, while SQLite does not fail.
use kchat_rust_sdk.Base.{
  ℕ, ◌≡◌, refl, ap, ◌&&◌, none, some, List, [], ◌∷◌, Bytes, bytes_eq, eq_of_bytes_eq, bytes_eq_refl,
  arith, ◌==◌, ok, if◌then◌else◌,
}
use kchat_rust_sdk.Storage.Table.{delete_where, bytes_key, number_key, pair_key}
use kchat_rust_sdk.Storage.Table.Laws.{select-delete_where}
use kchat_rust_sdk.Storage.Sqlite.{
  Tables, Database, attempt, prepare_cached, execute, map_err, storage_provider_version,
}
use kchat_rust_sdk.Storage.Codec.{key_to_sql}
use kchat_rust_sdk.Storage.GroupData
use kchat_rust_sdk.Storage.GroupData.{GroupDataType, data_type_to_sql}
use kchat_rust_sdk.Storage.GroupData.Laws as DataLaws
use kchat_rust_sdk.Storage.GroupEpochMessageSecrets as Epochs
use kchat_rust_sdk.Storage.GroupEpochMessageSecrets.Laws as EpochLaws
use kchat_rust_sdk.Storage.GroupDelete.{
  GroupTable, group_tables, in_group, delete_from, delete_from_table, delete_from_tables,
  delete_group_by_id,
}
use kchat_rust_sdk.Storage.Requests.{Client}

abbrev pub delete_from_each : List GroupTable → Bytes → Tables → Tables
delete_from_each [] b t = t
delete_from_each (table ∷ rest) b t = delete_from_each rest b (delete_from table b t)

-- The tables without the rows of a group.
abbrev pub without_group : Bytes → Tables → Tables
without_group b t = record t {
  group_data = delete_where (in_group (λ k. k.0) b) t.group_data;
  epoch_keys_pairs = delete_where (in_group (λ k. k.0) b) t.epoch_keys_pairs;
  own_leaf_nodes = delete_where (in_group (λ k. k) b) t.own_leaf_nodes;
  proposals = delete_where (in_group (λ k. k.0) b) t.proposals;
  group_epoch_message_secrets = delete_where (in_group (λ k. k.0) b) t.group_epoch_message_secrets;
  decrypted_application_messages =
      delete_where (in_group (λ k. k.0) b) t.decrypted_application_messages;
}

pub delete_from_each-eq-without_group :
    (b : Bytes) (t : Tables) → delete_from_each group_tables b t ≡ without_group b t
unfolding delete_from
delete_from_each-eq-without_group b t = refl

module _ (c : Client) where
  delete_from_table_lem :
      (g : c.Group) (b : Bytes) (table : GroupTable) (db : Database)
      → db.faults ≡ []
      → c.group.to_vec g ≡ some b
      → delete_from_table c.group c.display_code c.debug_code g table db
        ≡ (ok tt, record db { tables = delete_from table b db.tables })
  unfolding delete_from_table map_err prepare_cached attempt execute key_to_sql
  delete_from_table_lem g b table db i j = ground arith

  delete_from_tables_lem :
      (g : c.Group) (b : Bytes) (l : List GroupTable) (db : Database)
      → db.faults ≡ []
      → c.group.to_vec g ≡ some b
      → delete_from_tables c.group c.display_code c.debug_code g l db
        ≡ (ok tt, record db { tables = delete_from_each l b db.tables })
  unfolding delete_from_tables
  delete_from_tables_lem g b [] db i j = refl
  delete_from_tables_lem g b (table ∷ l) db i j =
      rw (delete_from_table_lem g b table db i j)
        (delete_from_tables_lem g b l (record db { tables = delete_from table b db.tables }) i j)

  -- The database after the deletion.
  abbrev pub deleted : c.Group → Database → Database
  deleted g db = (delete_group_by_id c.group c.display_code c.debug_code g db).1

  deleted-eq :
      (g : c.Group) (b : Bytes) (db : Database)
      → db.faults ≡ []
      → c.group.to_vec g ≡ some b
      → deleted g db ≡ record db { tables = delete_from_each group_tables b db.tables }
  unfolding delete_group_by_id
  deleted-eq g b db i j = ap (λ r. r.1) (delete_from_tables_lem g b group_tables db i j)

  -- After the deletion of a group there is no group data and no secret of an epoch of it, every other
  -- group reads as before, and the credentials, the key packages and the other keys that belong to no
  -- group are as they were. This is while SQLite does not fail, for an epoch that an SQLite integer
  -- holds.
  pub load-delete_group_by_id :
      (g h : c.Group) (b d : Bytes) (t : GroupDataType) (e : ℕ) (db : Database)
      → db.faults ≡ []
      → c.group.to_vec g ≡ some b
      → c.group.to_vec h ≡ some d
      → EpochLaws.IsSmall e
      → ((GroupData.load_in_tx c.group c.entity h t (deleted g db)).0
          ≡ (if bytes_eq b d then ok none else (GroupData.load_in_tx c.group c.entity h t db).0))
        × ((Epochs.load_in_tx c.group h e (deleted g db)).0
            ≡ (if bytes_eq b d then ok none else (Epochs.load_in_tx c.group h e db).0))
        × ((deleted g db).tables.signature_keys ≡ db.tables.signature_keys)
        × ((deleted g db).tables.encryption_keys ≡ db.tables.encryption_keys)
        × ((deleted g db).tables.key_packages ≡ db.tables.key_packages)
        × ((deleted g db).tables.psks ≡ db.tables.psks)
  unfolding delete_from
  load-delete_group_by_id g h b d t e db i j k s = rw (deleted-eq g b db i j) (
      let left : Database = record db { tables = delete_from_each group_tables b db.tables } in
      ground (
        arith,
        DataLaws.load_in_tx_lem c.group c.entity h d t left.tables.group_data left i k,
        DataLaws.load_in_tx_lem c.group c.entity h d t db.tables.group_data db i k,
        EpochLaws.load_in_tx_lem c.group h d e left.tables.group_epoch_message_secrets left i k s,
        EpochLaws.load_in_tx_lem c.group h d e db.tables.group_epoch_message_secrets db i k s,
        select-delete_where (λ n x. (n == storage_provider_version) && bytes_eq x.0 b)
            storage_provider_version (d, data_type_to_sql t) db.tables.group_data,
        select-delete_where (λ n x. (n == storage_provider_version) && bytes_eq x.0 b)
            storage_provider_version (d, e) db.tables.group_epoch_message_secrets,
        eq_of_bytes_eq b d,
        eq_of_bytes_eq d b,
        bytes_eq_refl b,
      ))
