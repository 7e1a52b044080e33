-- ===== src/Examples/Tables.antt =====
-- A database of the storage provider, and what is done to it.
use kchat_rust_sdk.Base.{
  ℕ, ◌≡◌, refl, sym, none, some, List, [], ◌∷◌, Bytes, codes, ok, pos, arith, bytes_eq,
}
use kchat_rust_sdk.Storage.Codec.{Codec, RoundTrips, key_to_sql}
use kchat_rust_sdk.Storage.Sqlite.{
  or_roll_back, query_row, optional, no_row, Tables, Database, DecryptedApplicationMessage,
  AppliedMigration, other_sql_error, attempt, prepare_cached, execute, transaction,
}
use kchat_rust_sdk.Storage.GroupEpochMessageSecrets as Epochs
use kchat_rust_sdk.Storage.GroupEpochMessageSecrets.Laws.{
  load_in_tx-replace_in_tx, load_in_tx-prune_in_tx,
}
use kchat_rust_sdk.Storage.DecryptedApplicationMessages as Decrypted
use kchat_rust_sdk.Storage.DecryptedApplicationMessages.Laws.{
  load_in_connection-insert_in_connection, load_in_connection-prune_in_connection,
}
use kchat_rust_sdk.Storage.Table.{exists_where, select_where}
use kchat_rust_sdk.Storage.WellFormed.{WellFormed}
use kchat_rust_sdk.Storage.Requests.{
  Field, Client, Request, write_field, replace_epoch_secrets, delete_group, run_pool, run_tx,
  read_field_tx, write_field_tx,
}
use kchat_rust_sdk.Storage.Requests.Agree.{run_pool-eq-run_tx}
use kchat_rust_sdk.Storage.Requests.Fields.{read_field_tx-write_field_tx}
use kchat_rust_sdk.Storage.Requests.WellFormed.{run_requests, run_requests-WellFormed}
use kchat_rust_sdk.Storage.Migrations.{
  Migration, bootstrap_body, in_bootstrap, without_history, with_legacy, adopt_if_expected,
  adopt_legacy, read_legacy, commit, table_exists, migration_err, same_history, insert_by_version,
  legacy_entries, bootstrap_legacy_kchat_migration_history, sort_by_version, entries,
  expected_migrations,
}
use kchat_rust_sdk.Storage.Migrations.Laws.{bootstrap_adopts}

abbrev pub plain : Codec Bytes
plain = record { to_vec = λ b. some b; from_slice = λ b. some b }

plain-RoundTrips : RoundTrips plain
plain-RoundTrips = record { from_slice-to_vec = λ x b e. sym e }

-- A list as its first byte string only, which is enough to write one.
abbrev first : Codec (List Bytes)
first = record {
  to_vec = λ l. elim l [ [] ↦ some [] | x ∷ _ ↦ some x ];
  from_slice = λ b. some (b ∷ []);
}

abbrev client : Client
client = record {
  Group = Bytes;
  Key = Bytes;
  Epoch = Bytes;
  Entity = Bytes;
  Reference = Bytes;
  group = plain;
  key = plain;
  epoch = plain;
  entity = plain;
  entities = first;
  reference = plain;
  display_code = λ n. codes "failure";
  debug_code = λ n. codes "Failure";
}

abbrev pub g1 : Bytes
g1 = codes "g1"

abbrev pub g2 : Bytes
g2 = codes "g2"

abbrev entry : DecryptedApplicationMessage
entry = record {
  ciphertext_digest = 1 ∷ [];
  plaintext = 2 ∷ [];
  created_at = pos 10;
  expires_at = pos 20;
}

abbrev newer : DecryptedApplicationMessage
newer = record {
  ciphertext_digest = 3 ∷ [];
  plaintext = 4 ∷ [];
  created_at = pos 15;
  expires_at = pos 40;
}

abbrev pub old_history : List AppliedMigration
old_history =
    record { version = 1; name = codes "initial"; applied_on = []; checksum = 7 ∷ [] } ∷ []

-- Two groups: both have secrets of epochs, one has a cached message and a tree.
abbrev pub tables : Tables
tables = record {
  encryption_keys = [];
  epoch_keys_pairs = [];
  group_data =
      record { provider_version = 1; key = (g1, codes "tree"); value = 9 ∷ [] }
      ∷ record { provider_version = 1; key = (g1, codes "message_secrets"); value = 8 ∷ [] }
      ∷ [];
  key_packages = [];
  own_leaf_nodes = [];
  proposals = [];
  psks = [];
  signature_keys = record { provider_version = 1; key = 5 ∷ []; value = 6 ∷ [] } ∷ [];
  group_epoch_message_secrets =
      record { provider_version = 1; key = (g1, 3); value = 30 ∷ [] }
      ∷ record { provider_version = 1; key = (g1, 4); value = 40 ∷ [] }
      ∷ record { provider_version = 1; key = (g2, 3); value = 33 ∷ [] }
      ∷ [];
  epoch_migration_state = [];
  decrypted_application_messages =
      record { provider_version = 1; key = (g1, codes "m"); value = entry } ∷ [];
  legacy_migrations = some old_history;
  kchat_migrations = none;
}

abbrev pub db : Database
db = record { tables = tables; faults = [] }

-- The third call of the library fails.
abbrev pub failing : Database
failing = record { tables = tables; faults = none ∷ none ∷ some other_sql_error ∷ [] }

pub tables-WellFormed : WellFormed tables
unfolding bytes_eq exists_where
tables-WellFormed = ground arith

abbrev update : List (Request client)
update =
    write_field Field.tree g2 (1 ∷ [])
    ∷ replace_epoch_secrets g1 ((5, 50 ∷ []) ∷ [])
    ∷ delete_group g1
    ∷ []

run_requests-WellFormed_example : WellFormed (run_requests client update failing).tables
run_requests-WellFormed_example = run_requests-WellFormed client update failing tables-WellFormed

run_pool-eq-run_tx_example :
    run_pool client (delete_group g1) ≡ transaction (run_tx client (delete_group g1))
run_pool-eq-run_tx_example = run_pool-eq-run_tx client (delete_group g1)

read_field_tx-write_field_tx_example :
    (read_field_tx client Field.tree g1 (write_field_tx client Field.context g1 (1 ∷ []) db).1).0
    ≡ (read_field_tx client Field.tree g1 db).0
unfolding bytes_eq
read_field_tx-write_field_tx_example =
    read_field_tx-write_field_tx client g1 g1 g1 g1 Field.context Field.tree (1 ∷ []) (1 ∷ []) db
      plain-RoundTrips refl refl refl refl

abbrev two_secrets : List (ℕ × Bytes)
two_secrets = (5, 50 ∷ []) ∷ (5, 51 ∷ []) ∷ []

load_in_tx-replace_in_tx_example :
    (Epochs.load_in_tx plain g1 5 (Epochs.replace_in_tx plain g1 two_secrets db).1).0
    ≡ ok (some (51 ∷ []))
unfolding bytes_eq
load_in_tx-replace_in_tx_example =
    load_in_tx-replace_in_tx plain g1 g1 g1 g1 5 two_secrets db refl refl refl (omega arith)
      (omega arith, (omega arith, tt))

load_in_tx-prune_in_tx_example :
    (Epochs.load_in_tx plain g1 3 (Epochs.prune_in_tx plain g1 4 4 db).1).0 ≡ ok none
unfolding bytes_eq
load_in_tx-prune_in_tx_example =
    load_in_tx-prune_in_tx plain g1 g1 g1 g1 4 4 3 db refl refl refl (omega arith) (omega arith)
      (omega arith)

load_in_connection-insert_in_connection_example :
    (Decrypted.load_in_connection plain g1
      (codes "m")
      (pos 18)
      (Decrypted.insert_in_connection plain g1 (codes "m") newer db).1).0
    ≡ ok (some entry)
unfolding bytes_eq Decrypted.load_in_connection prepare_cached attempt key_to_sql query_row optional
    no_row select_where
load_in_connection-insert_in_connection_example =
    load_in_connection-insert_in_connection plain g1 g1 g1 g1 (codes "m") (codes "m") newer (pos 18)
      db refl tables-WellFormed refl refl

load_in_connection-prune_in_connection_example :
    (Decrypted.load_in_connection plain g1
      (codes "m")
      (pos 30)
      (Decrypted.prune_in_connection (pos 25) db).1).0
    ≡ (Decrypted.load_in_connection plain g1 (codes "m") (pos 30) db).0
load_in_connection-prune_in_connection_example =
    load_in_connection-prune_in_connection plain g1 g1 (codes "m") (pos 25) (pos 30) db refl
      tables-WellFormed refl refl

abbrev embedded : List Migration
embedded =
    record { version = 6; name = codes "later"; checksum = 9 ∷ [] }
    ∷ record { version = 1; name = codes "initial"; checksum = 7 ∷ [] }
    ∷ []

bootstrap_adopts_example :
    (db.tables.legacy_migrations ≡ some old_history)
    × (sort_by_version (entries old_history) ≡ expected_migrations embedded)
unfolding bytes_eq bootstrap_legacy_kchat_migration_history bootstrap_body in_bootstrap
    without_history with_legacy adopt_if_expected adopt_legacy read_legacy commit table_exists
    migration_err attempt prepare_cached execute query_row or_roll_back same_history
    insert_by_version sort_by_version entries legacy_entries expected_migrations
bootstrap_adopts_example = bootstrap_adopts embedded db old_history refl refl refl
