-- ===== src/Storage/Migrations.antt =====
-- `run_migrations` of crates/kchat-storage-provider/src/storage_provider.rs, and how it adopts the
-- history of migrations that an older table holds. The runner of refinery is a parameter.
pub mod Laws
use kchat_rust_sdk.Base.{
  ℕ, Bool, true, false, not, ◌&&◌, Option, none, some, List, [], ◌∷◌, codes, bytes_eq, leb, ◌==◌,
  ok, err, Result, if◌then◌else◌,
}
use kchat_rust_sdk.Base.Exec.{Stateful, pure, gets, ◌>>=◌, ◌>>◌}
use kchat_rust_sdk.Storage.Sqlite.{
  Text, SqlError, AppliedMigration, Tables, Database, Exec, attempt, checkout, prepare_cached,
  execute, query_row, or_roll_back,
}

-- A migration that is embedded in the crate.
pub record Migration : Type 0 where
  pub version : ℕ
  pub name : Text
  pub checksum : Text

-- `LEGACY_KCHAT_MIGRATION_VERSION`
abbrev pub legacy_kchat_migration_version : ℕ
legacy_kchat_migration_version = 5

-- `refinery::Error`: the message given to `migration_err` and the cause, or an error of the runner.
pub data MigrationError : Type 0 where
  wrapped : Text → SqlError → MigrationError
  runner_error : Text → MigrationError

abbrev pub Migrating {ℓ} : Type ℓ → Type ℓ
Migrating A = Stateful MigrationError Database A

abbrev pub wrap {ℓ} : {A : Type ℓ} → Text → Result SqlError A → Result MigrationError A
wrap text (ok a) = ok a
wrap text (err e) = err (wrapped text e)

-- `WrapMigrationError::migration_err`
unfoldable pub migration_err {ℓ} : {A : Type ℓ} → Text → Exec A → Migrating A
migration_err text act db = let (result, after) = act db in (wrap text result, after)

-- what the comparison of the histories reads: version, name and checksum
abbrev pub Entry : Type 0
Entry = ℕ × (Text × Text)

abbrev pub same_entry : Entry → Entry → Bool
same_entry x y = (x.0 == y.0) && (bytes_eq x.1.0 y.1.0 && bytes_eq x.1.1 y.1.1)

unfoldable pub same_history : List Entry → List Entry → Bool
same_history [] [] = true
same_history [] (y ∷ ys) = false
same_history (x ∷ xs) [] = false
same_history (x ∷ xs) (y ∷ ys) = same_entry x y && same_history xs ys

-- `sort_by_key` and `ORDER BY`, by version
unfoldable pub insert_by_version : Entry → List Entry → List Entry
insert_by_version x [] = x ∷ []
insert_by_version x (y ∷ ys) = if leb x.0 y.0 then x ∷ y ∷ ys else y ∷ insert_by_version x ys

unfoldable pub sort_by_version : List Entry → List Entry
sort_by_version [] = []
sort_by_version (x ∷ xs) = insert_by_version x (sort_by_version xs)

unfoldable pub entries : List AppliedMigration → List Entry
entries [] = []
entries (m ∷ rest) = (m.version, (m.name, m.checksum)) ∷ entries rest

-- the embedded migrations up to the legacy version
unfoldable pub legacy_entries : List Migration → List Entry
legacy_entries [] = []
legacy_entries (m ∷ rest) =
    let others = legacy_entries rest in
    if leb m.version legacy_kchat_migration_version
    then (m.version, (m.name, m.checksum)) ∷ others
    else others

unfoldable pub expected_migrations : List Migration → List Entry
expected_migrations migrations = sort_by_version (legacy_entries migrations)

abbrev pub exists : Option (List AppliedMigration) → Bool
exists none = false
exists (some rows) = true

abbrev pub rows_of : Option (List AppliedMigration) → List AppliedMigration
rows_of none = []
rows_of (some rows) = rows

-- `SELECT EXISTS(… FROM sqlite_master …)`
unfoldable pub table_exists : (Tables → Option (List AppliedMigration)) → Exec Bool
table_exists table = do prepare_cached; query_row (λ t. some (exists (table t))) (λ found. ok found)

unfoldable pub commit : Migrating (Unit {0})
commit = migration_err (codes "failed to finish KChat migration history bootstrap") attempt

-- the rows of the legacy history, `ORDER BY version`: prepared, queried and collected
unfoldable pub read_legacy : Migrating (List Entry)
read_legacy = do
  migration_err (codes "failed to read legacy migration history") attempt
  migration_err (codes "failed to query legacy migration history") attempt
  migration_err (codes "failed to collect legacy migration history") attempt
  gets (λ db. sort_by_version (entries (rows_of db.tables.legacy_migrations)))

-- `execute_batch`: the new table is created with the rows of the legacy one.
unfoldable pub adopt_legacy : Migrating (Unit {0})
adopt_legacy =
    migration_err (codes "failed to create KChat migration history table")
      (execute (λ t. record t { kchat_migrations = some (rows_of t.legacy_migrations) }))

unfoldable pub adopt_if_expected : List Migration → List Entry → Migrating (Unit {0})
adopt_if_expected migrations legacy =
    if same_history legacy (expected_migrations migrations)
    then (adopt_legacy >> commit)
    else commit

unfoldable pub with_legacy : List Migration → Bool → Migrating (Unit {0})
with_legacy migrations legacy_history_exists =
    if not legacy_history_exists then commit else (read_legacy >>= adopt_if_expected migrations)

unfoldable pub without_history : List Migration → Migrating (Unit {0})
without_history migrations =
    migration_err (codes "failed to query legacy migration history table")
      (table_exists (λ t. t.legacy_migrations))
    >>= with_legacy migrations

unfoldable pub in_bootstrap : List Migration → Bool → Migrating (Unit {0})
in_bootstrap migrations kchat_history_exists =
    if kchat_history_exists then commit else without_history migrations

unfoldable pub bootstrap_body : List Migration → Migrating (Unit {0})
bootstrap_body migrations =
    migration_err (codes "failed to query KChat migration history table")
      (table_exists (λ t. t.kchat_migrations))
    >>= in_bootstrap migrations

unfoldable pub bootstrap_legacy_kchat_migration_history : List Migration → Migrating (Unit {0})
bootstrap_legacy_kchat_migration_history migrations = do
  migration_err (codes "failed to start KChat migration history bootstrap") attempt
  λ db. or_roll_back db.tables (bootstrap_body migrations db)

-- `run` is the call of the runner, which applies the migrations that the history lacks.
unfoldable pub run_migrations : List Migration → Migrating (Unit {0}) → Migrating (Unit {0})
run_migrations migrations run = do
  migration_err (codes "failed to acquire pooled sqlite connection for migrations") checkout
  bootstrap_legacy_kchat_migration_history migrations
  run
