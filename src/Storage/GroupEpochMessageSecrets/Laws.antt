-- ===== src/Storage/GroupEpochMessageSecrets/Laws.antt =====
-- The message secrets of an epoch that are read after a change, while SQLite does not fail.
use kchat_rust_sdk.Base.{
  ℕ, ◌<◌, ◌≡◌, refl, ◌&&◌, ◌||◌, Option, none, some, List, [], ◌∷◌, Bytes, bytes_eq, eq_of_bytes_eq,
  bytes_eq_refl, arith, ltb, ◌==◌, ok, if◌then◌else◌,
}
use kchat_rust_sdk.Storage.Table.{
  Table, bytes_key, number_key, pair_key, select, upsert, delete_where,
}
use kchat_rust_sdk.Storage.Table.Laws.{select-upsert, select-delete_where}
use kchat_rust_sdk.Storage.Sqlite.{
  Database, attempt, prepare_cached, execute, query_row, optional, no_row, u64_to_sql,
  storage_provider_version,
}
use kchat_rust_sdk.Storage.Codec.{Codec, key_to_sql}
use kchat_rust_sdk.Storage.GroupEpochMessageSecrets.{
  of_group, outside_window, load_in_tx, store_in_tx, delete_in_tx, prune_in_tx, store_each_in_tx,
  replace_in_tx,
}

-- An epoch that an SQLite integer holds.
abbrev pub IsSmall : ℕ → Type 0
IsSmall epoch = epoch < 9223372036854775808

abbrev pub AllSmall : List (ℕ × Bytes) → Type 0
AllSmall [] = Unit {0}
AllSmall ((epoch, _) ∷ rest) = IsSmall epoch × AllSmall rest

-- What a list of writes leaves at an epoch: the last of them wins.
abbrev pub last_of : ℕ → List (ℕ × Bytes) → Option Bytes
last_of epoch [] = none
last_of epoch ((e, bytes) ∷ rest) = elim (last_of epoch rest) [
  | some found ↦ some found
  | none ↦ if e == epoch then some bytes else none
]

abbrev pub Rows : Type 0
Rows = Table (Bytes × ℕ) Bytes

-- The database with other rows in the table.
abbrev pub with_rows : Rows → Database → Database
with_rows rows db = record db { tables = record db.tables { group_epoch_message_secrets = rows } }

abbrev pub upsert_each : Bytes → List (ℕ × Bytes) → Rows → Rows
upsert_each b [] rows = rows
upsert_each b ((e, bytes) ∷ rest) rows =
    upsert_each b rest (upsert storage_provider_version (b, e) bytes rows)

select-upsert_each :
    (b c : Bytes) (f : ℕ) (l : List (ℕ × Bytes)) (rows : Rows)
    → select storage_provider_version (c, f) (upsert_each b l rows) ≡ (
        if bytes_eq b c
        then elim (last_of f l) [
          | some found ↦ some found
          | none ↦ select storage_provider_version (c, f) rows
        ]
        else select storage_provider_version (c, f) rows)
select-upsert_each b c f [] rows = ground arith
select-upsert_each b c f ((e, bytes) ∷ l) rows = ground (
  arith,
  select-upsert_each b c f l (upsert storage_provider_version (b, e) bytes rows),
  select-upsert storage_provider_version (b, e) (c, f) bytes rows,
)

module _ {G : Type 0} (group : Codec G) where
  pub load_in_tx_lem :
      (g : G) (b : Bytes) (e : ℕ) (rows : Rows) (db : Database)
      → db.faults ≡ []
      → group.to_vec g ≡ some b
      → IsSmall e
      → (load_in_tx group g e (with_rows rows db)).0
        ≡ ok (select storage_provider_version (b, e) rows)
  unfolding load_in_tx prepare_cached attempt query_row optional key_to_sql no_row u64_to_sql
  load_in_tx_lem g b e rows db i j k = ground arith

  store_in_tx_lem :
      (g : G) (b : Bytes) (e : ℕ) (x : Bytes) (rows : Rows) (db : Database)
      → db.faults ≡ []
      → group.to_vec g ≡ some b
      → IsSmall e
      → store_in_tx group g e x (with_rows rows db)
        ≡ (ok tt, with_rows (upsert storage_provider_version (b, e) x rows) db)
  unfolding store_in_tx prepare_cached attempt execute key_to_sql u64_to_sql
  store_in_tx_lem g b e x rows db i j k = ground arith

  delete_in_tx_lem :
      (g : G) (b : Bytes) (db : Database)
      → db.faults ≡ []
      → group.to_vec g ≡ some b
      → delete_in_tx group g db
        ≡ (ok tt, with_rows (delete_where (of_group b) db.tables.group_epoch_message_secrets) db)
  unfolding delete_in_tx prepare_cached attempt execute key_to_sql
  delete_in_tx_lem g b db i j = ground arith

  prune_in_tx_lem :
      (g : G) (b : Bytes) (keep_from current : ℕ) (db : Database)
      → db.faults ≡ []
      → group.to_vec g ≡ some b
      → IsSmall keep_from
      → IsSmall current
      → prune_in_tx group g keep_from current db ≡ (
        ok tt,
        with_rows
            (delete_where
              (outside_window b keep_from current)
              db.tables.group_epoch_message_secrets)
            db,
      )
  unfolding prune_in_tx prepare_cached attempt execute key_to_sql u64_to_sql
  prune_in_tx_lem g b keep_from current db i j k l = ground arith

  store_each_in_tx_lem :
      (g : G) (b : Bytes) (l : List (ℕ × Bytes)) (rows : Rows) (db : Database)
      → db.faults ≡ []
      → group.to_vec g ≡ some b
      → AllSmall l
      → store_each_in_tx group g l (with_rows rows db)
        ≡ (ok tt, with_rows (upsert_each b l rows) db)
  unfolding store_each_in_tx
  store_each_in_tx_lem g b [] rows db i j k = refl
  store_each_in_tx_lem g b ((e, x) ∷ l) rows db i j k =
      rw (store_in_tx_lem g b e x rows db i j k.0)
        (store_each_in_tx_lem g b l (upsert storage_provider_version (b, e) x rows) db i j k.1)

  pub replace_in_tx_lem :
      (g : G) (b : Bytes) (l : List (ℕ × Bytes)) (db : Database)
      → db.faults ≡ []
      → group.to_vec g ≡ some b
      → AllSmall l
      → replace_in_tx group g l db ≡ (
        ok tt,
        with_rows
            (upsert_each b l (delete_where (of_group b) db.tables.group_epoch_message_secrets))
            db,
      )
  unfolding replace_in_tx
  replace_in_tx_lem g b l db i j t = rw (delete_in_tx_lem g b db i j) (
      store_each_in_tx_lem g b l (delete_where (of_group b) db.tables.group_epoch_message_secrets)
        db i j t)

  -- Of the replacement of the secrets of a group, a read finds for each epoch the last of the secrets
  -- given for it, and nothing for an epoch that is not among them; the secrets of the other groups are
  -- found as before. This is while SQLite does not fail, for epochs that an SQLite integer holds.
  pub load_in_tx-replace_in_tx :
      (g h : G) (b c : Bytes) (f : ℕ) (l : List (ℕ × Bytes)) (db : Database)
      → db.faults ≡ []
      → group.to_vec g ≡ some b
      → group.to_vec h ≡ some c
      → IsSmall f
      → AllSmall l
      → (load_in_tx group h f (replace_in_tx group g l db).1).0
        ≡ (if bytes_eq b c then ok (last_of f l) else (load_in_tx group h f db).0)
  load_in_tx-replace_in_tx g h b c f l db i j k s t =
      let rows : Rows = delete_where (of_group b) db.tables.group_epoch_message_secrets in
      rw (replace_in_tx_lem g b l db i j t) (
        ground (
          arith,
          load_in_tx_lem h c f (upsert_each b l rows) db i k s,
          load_in_tx_lem h c f db.tables.group_epoch_message_secrets db i k s,
          select-upsert_each b c f l rows,
          select-delete_where (λ n x. (n == storage_provider_version) && bytes_eq x.0 b)
              storage_provider_version (c, f) db.tables.group_epoch_message_secrets,
          eq_of_bytes_eq b c,
          eq_of_bytes_eq c b,
          bytes_eq_refl b,
        ))

  -- A write of secrets is found at its epoch of its group, and changes no other epoch and no other group.
  pub load_in_tx-store_in_tx :
      (g h : G) (b c : Bytes) (e f : ℕ) (x : Bytes) (db : Database)
      → db.faults ≡ []
      → group.to_vec g ≡ some b
      → group.to_vec h ≡ some c
      → IsSmall e
      → IsSmall f
      → (load_in_tx group h f (store_in_tx group g e x db).1).0
        ≡ (if bytes_eq b c && (e == f) then ok (some x) else (load_in_tx group h f db).0)
  load_in_tx-store_in_tx g h b c e f x db i j k s t =
      let rows : Rows = db.tables.group_epoch_message_secrets in
      rw (store_in_tx_lem g b e x rows db i j s) (
        ground (
          arith,
          load_in_tx_lem h c f (upsert storage_provider_version (b, e) x rows) db i k t,
          load_in_tx_lem h c f rows db i k t,
          select-upsert storage_provider_version (b, e) (c, f) x rows,
        ))

  -- Pruning keeps of a group exactly the epochs from the first to keep up to the current one, and every
  -- epoch of the other groups, while SQLite does not fail and for epochs that an SQLite integer holds.
  pub load_in_tx-prune_in_tx :
      (g h : G) (b c : Bytes) (keep_from current f : ℕ) (db : Database)
      → db.faults ≡ []
      → group.to_vec g ≡ some b
      → group.to_vec h ≡ some c
      → IsSmall keep_from
      → IsSmall current
      → IsSmall f
      → (load_in_tx group h f (prune_in_tx group g keep_from current db).1).0 ≡ (
          if bytes_eq b c && (ltb f keep_from || ltb current f)
          then ok none
          else (load_in_tx group h f db).0)
  load_in_tx-prune_in_tx g h b c keep_from current f db i j k s t u =
      let before : Rows = db.tables.group_epoch_message_secrets in
      rw (prune_in_tx_lem g b keep_from current db i j s t) (
        ground (
          arith,
          load_in_tx_lem h c f (delete_where (outside_window b keep_from current) before) db i k u,
          load_in_tx_lem h c f before db i k u,
          select-delete_where
              (λ n x.
                ((n == storage_provider_version) && bytes_eq x.0 b)
                && (ltb x.1 keep_from || ltb current x.1))
              storage_provider_version (c, f) before,
          eq_of_bytes_eq b c,
          eq_of_bytes_eq c b,
          bytes_eq_refl b,
        ))
