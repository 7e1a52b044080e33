-- ===== src/Storage/DecryptedApplicationMessages/Laws.antt =====
-- The cached messages that are read after a change, while SQLite does not fail.
use kchat_rust_sdk.Base.{
  ◌≡◌, refl, Bool, true, false, ◌&&◌, not, Option, none, some, [], Bytes, bytes_eq, arith, ℤ,
  leb_int, leb_int_trans, ok, if◌then◌else◌, err,
}
use kchat_rust_sdk.Storage.Table.{
  Table, bytes_key, pair_key, UniqueKey, select, upsert_if, delete_where,
}
use kchat_rust_sdk.Storage.Table.Values.{
  passing, first_value-select_where, select-upsert_if, passing-select-delete_where,
}
use kchat_rust_sdk.Storage.Table.Invariant.{upsert_if-Keyed, delete_where-Keyed}
use kchat_rust_sdk.Storage.Sqlite.{
  Text, DecryptedApplicationMessage, Database, attempt, prepare_cached, execute, query_row,
  optional, no_row, storage_provider_version, Fallible,
}
use kchat_rust_sdk.Storage.Codec.{Codec, key_to_sql}
use kchat_rust_sdk.Storage.DecryptedApplicationMessages.{
  is_expired, load_in_connection, insert_in_connection, prune_in_connection,
}
use kchat_rust_sdk.Storage.WellFormed.{WellFormed}

abbrev Rows : Type 0
Rows = Table (Bytes × Text) DecryptedApplicationMessage

abbrev with_rows : Rows → Database → Database
with_rows rows db = record db {
  tables = record db.tables { decrypted_application_messages = rows };
}

abbrev pub is_unexpired : ℤ → DecryptedApplicationMessage → Bool
is_unexpired now entry = not (leb_int entry.expires_at now)

-- What the insertion of an entry makes of the answer of a query at the time the entry was created.
abbrev pub inserted :
    DecryptedApplicationMessage
    → Fallible (Option DecryptedApplicationMessage)
    → Option DecryptedApplicationMessage
inserted entry (err e) = some entry
inserted entry (ok none) = some entry
inserted entry (ok (some old)) = some old

expired_later :
    (now later : ℤ)
    → leb_int now later ≡ true
    → (x : DecryptedApplicationMessage) → leb_int x.expires_at now ≡ true
    → is_unexpired later x ≡ false
expired_later now later l x e = rw (leb_int_trans x.expires_at now later e l) refl

prune_in_connection_lem :
    (now : ℤ) (db : Database)
    → db.faults ≡ []
    → prune_in_connection now db ≡ (
      ok tt,
      with_rows (delete_where (is_expired now) db.tables.decrypted_application_messages) db,
    )
unfolding prune_in_connection prepare_cached attempt execute
prune_in_connection_lem now db i = ground arith

module _ {G : Type 0} (group : Codec G) where
  load_in_connection_lem :
      (g : G) (b : Bytes) (m : Text) (now : ℤ) (rows : Rows) (db : Database)
      → db.faults ≡ []
      → group.to_vec g ≡ some b
      → UniqueKey rows
      → (load_in_connection group g m now (with_rows rows db)).0
        ≡ ok (passing (is_unexpired now) (select storage_provider_version (b, m) rows))
  unfolding load_in_connection prepare_cached attempt query_row optional key_to_sql no_row
  load_in_connection_lem g b m now rows db i j u =
      ground
        (arith, first_value-select_where storage_provider_version (b, m) (is_unexpired now) rows u)

  abbrev replaces : DecryptedApplicationMessage → DecryptedApplicationMessage → Bool
  replaces entry old = leb_int old.expires_at entry.created_at

  insert_in_connection_lem :
      (g : G) (b : Bytes) (m : Text) (entry : DecryptedApplicationMessage) (db : Database)
      → db.faults ≡ []
      → group.to_vec g ≡ some b
      → insert_in_connection group g m entry db ≡ (
        ok tt,
        with_rows
            (upsert_if
              (replaces entry)
              storage_provider_version
              (b, m)
              entry
              db.tables.decrypted_application_messages)
            db,
      )
  unfolding insert_in_connection prepare_cached attempt execute key_to_sql
  insert_in_connection_lem g b m entry db i j = ground arith

  -- While SQLite does not fail and the table has its primary key, an insertion never replaces an entry that
  -- had not expired when the new one was created: after it a query for the same message answers, as far
  -- as it has not expired, that old entry if there is one and the new one otherwise; the other messages
  -- are found as before.
  pub load_in_connection-insert_in_connection :
      (g h : G) (b c : Bytes) (m n : Text) (entry : DecryptedApplicationMessage) (now : ℤ)
      (db : Database)
      → db.faults ≡ []
      → WellFormed db.tables
      → group.to_vec g ≡ some b
      → group.to_vec h ≡ some c
      → (load_in_connection group h n now (insert_in_connection group g m entry db).1).0 ≡ (
          if bytes_eq b c && bytes_eq m n
          then ok (
              passing
                (is_unexpired now)
                (inserted entry (load_in_connection group g m entry.created_at db).0))
          else (load_in_connection group h n now db).0)
  load_in_connection-insert_in_connection g h b c m n entry now db i w j k =
      let before : Rows = db.tables.decrypted_application_messages in
      let rows : Rows = upsert_if (replaces entry) storage_provider_version (b, m) entry before in
      rw (insert_in_connection_lem g b m entry db i j) (
        ground (
          arith,
          load_in_connection_lem h c n now rows db i k
              (upsert_if-Keyed (replaces entry) storage_provider_version (b, m) entry before
                w.10).0,
          load_in_connection_lem h c n now before db i k w.10.0,
          load_in_connection_lem g b m entry.created_at before db i j w.10.0,
          select-upsert_if storage_provider_version (replaces entry) (b, m) (c, n) entry before
              w.10.1,
        ))

  -- Pruning at a time is not seen by a query at that time or later, while SQLite does not fail and the
  -- table has its primary key.
  pub load_in_connection-prune_in_connection :
      (g : G) (b : Bytes) (m : Text) (now later : ℤ) (db : Database)
      → db.faults ≡ []
      → WellFormed db.tables
      → group.to_vec g ≡ some b
      → leb_int now later ≡ true
      → (load_in_connection group g m later (prune_in_connection now db).1).0
        ≡ (load_in_connection group g m later db).0
  load_in_connection-prune_in_connection g b m now later db i w j l =
      let before : Rows = db.tables.decrypted_application_messages in
      rw (prune_in_connection_lem now db i) (
        ground (
          arith,
          load_in_connection_lem g b m later (delete_where (is_expired now) before) db i j
              (delete_where-Keyed storage_provider_version (is_expired now) before w.10).0,
          load_in_connection_lem g b m later before db i j w.10.0,
          passing-select-delete_where storage_provider_version (b, m) (is_unexpired later)
              (λ x. leb_int x.expires_at now) before w.10.0 (expired_later now later l),
        ))
