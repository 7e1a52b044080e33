-- ===== src/Storage/GroupData/Laws.antt =====
-- The group data that is read after a change, while SQLite does not fail.
use kchat_rust_sdk.Base.{
  ℕ, ◌≡◌, refl, Bool, ◌&&◌, Option, none, some, [], Bytes, bytes_eq, eq_of_bytes_eq, bytes_eq_refl,
  arith, ◌==◌, ok, if◌then◌else◌,
}
use kchat_rust_sdk.Storage.Table.{
  Table, bytes_key, pair_key, has_key, select, insert_or_replace, delete_where,
}
use kchat_rust_sdk.Storage.Table.Laws.{select-insert_or_replace, select-delete_key}
use kchat_rust_sdk.Storage.Sqlite.{
  Text, Database, attempt, prepare_cached, execute, query_row, optional, no_row,
  storage_provider_version, Fallible,
}
use kchat_rust_sdk.Storage.Codec.{Codec, RoundTrips, key_to_sql, entity_to_sql, entity_from_sql}
use kchat_rust_sdk.Storage.GroupData.{
  GroupDataType, join_group_config, tree, interim_transcript_hash, context, confirmation_tag,
  group_state, message_secrets, resumption_psk_store, own_leaf_index, use_ratchet_tree_extension,
  group_epoch_secrets, application_export_tree, data_type_to_sql, data_type_from_sql, load_in_tx,
  store_in_tx, delete_group_data_in_tx,
}

-- The place of a kind of data in the enumeration.
abbrev pub data_type_index : GroupDataType → ℕ
data_type_index join_group_config = 0
data_type_index tree = 1
data_type_index interim_transcript_hash = 2
data_type_index context = 3
data_type_index confirmation_tag = 4
data_type_index group_state = 5
data_type_index message_secrets = 6
data_type_index resumption_psk_store = 7
data_type_index own_leaf_index = 8
data_type_index use_ratchet_tree_extension = 9
data_type_index group_epoch_secrets = 10
data_type_index application_export_tree = 11

abbrev data_type_of_index : ℕ → GroupDataType
data_type_of_index n =
    if n == 0
    then join_group_config
    else if n == 1
    then tree
    else if n == 2
    then interim_transcript_hash
    else if n == 3
    then context
    else if n == 4
    then confirmation_tag
    else if n == 5
    then group_state
    else if n == 6
    then message_secrets
    else if n == 7
    then resumption_psk_store
    else if n == 8
    then own_leaf_index
    else if n == 9
    then use_ratchet_tree_extension
    else if n == 10
    then group_epoch_secrets
    else application_export_tree

data_type_of_index-data_type_index :
    (t : GroupDataType) → data_type_of_index (data_type_index t) ≡ t
data_type_of_index-data_type_index join_group_config = refl
data_type_of_index-data_type_index tree = refl
data_type_of_index-data_type_index interim_transcript_hash = refl
data_type_of_index-data_type_index context = refl
data_type_of_index-data_type_index confirmation_tag = refl
data_type_of_index-data_type_index group_state = refl
data_type_of_index-data_type_index message_secrets = refl
data_type_of_index-data_type_index resumption_psk_store = refl
data_type_of_index-data_type_index own_leaf_index = refl
data_type_of_index-data_type_index use_ratchet_tree_extension = refl
data_type_of_index-data_type_index group_epoch_secrets = refl
data_type_of_index-data_type_index application_export_tree = refl

data_type_from_sql-data_type_to_sql :
    (t : GroupDataType) → data_type_from_sql (data_type_to_sql t) ≡ ok t
unfolding data_type_from_sql data_type_to_sql bytes_eq
data_type_from_sql-data_type_to_sql join_group_config = refl
data_type_from_sql-data_type_to_sql tree = refl
data_type_from_sql-data_type_to_sql interim_transcript_hash = refl
data_type_from_sql-data_type_to_sql context = refl
data_type_from_sql-data_type_to_sql confirmation_tag = refl
data_type_from_sql-data_type_to_sql group_state = refl
data_type_from_sql-data_type_to_sql message_secrets = refl
data_type_from_sql-data_type_to_sql resumption_psk_store = refl
data_type_from_sql-data_type_to_sql own_leaf_index = refl
data_type_from_sql-data_type_to_sql use_ratchet_tree_extension = refl
data_type_from_sql-data_type_to_sql group_epoch_secrets = refl
data_type_from_sql-data_type_to_sql application_export_tree = refl

-- The texts of the column tell the kinds of data apart.
same_data_type :
    (t u : GroupDataType)
    → bytes_eq (data_type_to_sql t) (data_type_to_sql u) ≡ (data_type_index t == data_type_index u)
same_data_type t u = ground (
  arith,
  data_type_of_index-data_type_index t,
  data_type_of_index-data_type_index u,
  data_type_from_sql-data_type_to_sql t,
  data_type_from_sql-data_type_to_sql u,
  eq_of_bytes_eq (data_type_to_sql t) (data_type_to_sql u),
  bytes_eq_refl (data_type_to_sql t),
  bytes_eq_refl (data_type_to_sql u),
)

-- One cell of the table: a group and a kind of data.
abbrev pub same_cell : Bytes → GroupDataType → Bytes → GroupDataType → Bool
same_cell b t c u = bytes_eq b c && (data_type_index t == data_type_index u)

-- The database with other rows in the table.
abbrev pub with_rows : Table (Bytes × Text) Bytes → Database → Database
with_rows rows db = record db { tables = record db.tables { group_data = rows } }

module _ {G : Type 0} (group : Codec G) where
  pub delete_in_tx_lem :
      (g : G) (b : Bytes) (t : GroupDataType) (db : Database)
      → db.faults ≡ []
      → group.to_vec g ≡ some b
      → delete_group_data_in_tx group g t db ≡ (
        ok tt,
        with_rows
            (delete_where
              (has_key storage_provider_version (b, data_type_to_sql t))
              db.tables.group_data)
            db,
      )
  unfolding delete_group_data_in_tx prepare_cached attempt execute key_to_sql
  delete_in_tx_lem g b t db f e = ground arith

module _ {G T : Type 0} (group : Codec G) (entity : Codec T) where
  -- What a query that found a column answers.
  abbrev pub answer : Option Bytes → Fallible (Option T)
  answer none = ok none
  answer (some x) = no_row (entity_from_sql entity x)

  pub load_in_tx_lem :
      (g : G) (b : Bytes) (t : GroupDataType) (rows : Table (Bytes × Text) Bytes) (db : Database)
      → db.faults ≡ []
      → group.to_vec g ≡ some b
      → (load_in_tx group entity g t (with_rows rows db)).0
        ≡ answer (select storage_provider_version (b, data_type_to_sql t) rows)
  unfolding load_in_tx prepare_cached attempt query_row optional key_to_sql no_row
  load_in_tx_lem g b t rows db f e = ground arith

  store_in_tx_lem :
      (g : G) (b : Bytes) (t : GroupDataType) (x : T) (v : Bytes) (db : Database)
      → db.faults ≡ []
      → group.to_vec g ≡ some b
      → entity.to_vec x ≡ some v
      → store_in_tx group entity g t x db ≡ (
        ok tt,
        with_rows
            (insert_or_replace storage_provider_version
              (b, data_type_to_sql t)
              v
              db.tables.group_data)
            db,
      )
  unfolding store_in_tx prepare_cached attempt execute key_to_sql entity_to_sql
  store_in_tx_lem g b t x v db f e d = ground arith

  pub load_in_tx-store_in_tx :
      (g h : G) (b c : Bytes) (t u : GroupDataType) (x : T) (v : Bytes) (db : Database)
      → RoundTrips entity
      → db.faults ≡ []
      → group.to_vec g ≡ some b
      → group.to_vec h ≡ some c
      → entity.to_vec x ≡ some v
      → (load_in_tx group entity h u (store_in_tx group entity g t x db).1).0
        ≡ (if same_cell b t c u then ok (some x) else (load_in_tx group entity h u db).0)
  unfolding no_row entity_from_sql
  load_in_tx-store_in_tx g h b c t u x v db laws f e i d =
      let rows : Table (Bytes × Text) Bytes =
        insert_or_replace storage_provider_version (b, data_type_to_sql t) v db.tables.group_data in
      rw (store_in_tx_lem g b t x v db f e d) (
        ground (
          arith,
          load_in_tx_lem h c u rows db f i,
          load_in_tx_lem h c u db.tables.group_data db f i,
          select-insert_or_replace storage_provider_version (b, data_type_to_sql t)
              (c, data_type_to_sql u) v db.tables.group_data,
          same_data_type t u,
          laws.from_slice-to_vec x v d,
        ))

  pub load_in_tx-delete_in_tx :
      (g h : G) (b c : Bytes) (t u : GroupDataType) (db : Database)
      → db.faults ≡ []
      → group.to_vec g ≡ some b
      → group.to_vec h ≡ some c
      → (load_in_tx group entity h u (delete_group_data_in_tx group g t db).1).0
        ≡ (if same_cell b t c u then ok none else (load_in_tx group entity h u db).0)
  load_in_tx-delete_in_tx g h b c t u db f e i =
      let rows : Table (Bytes × Text) Bytes =
        delete_where (has_key storage_provider_version (b, data_type_to_sql t))
          db.tables.group_data in
      rw (delete_in_tx_lem group g b t db f e) (
        ground (
          arith,
          load_in_tx_lem h c u rows db f i,
          load_in_tx_lem h c u db.tables.group_data db f i,
          select-delete_key storage_provider_version (b, data_type_to_sql t) (c, data_type_to_sql u)
              db.tables.group_data,
          same_data_type t u,
        ))
