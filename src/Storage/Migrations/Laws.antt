-- ===== src/Storage/Migrations/Laws.antt =====
-- How the history of migrations is adopted.
use kchat_rust_sdk.Base.{
  subst, Option-cases, inl, inr, if◌then◌else◌, ◌≡◌, refl, true, none, some, List, [], ◌∷◌,
  eq_of_bytes_eq, arith, ok, err,
}
use kchat_rust_sdk.Storage.Sqlite.{
  Tables, AppliedMigration, Database, attempt, prepare_cached, execute, query_row, or_roll_back,
}
use kchat_rust_sdk.Storage.Migrations.{
  Migration, MigrationError, Entry, same_history, sort_by_version, entries, expected_migrations,
  migration_err, table_exists, commit, read_legacy, adopt_legacy, adopt_if_expected, with_legacy,
  without_history, in_bootstrap, bootstrap_body, bootstrap_legacy_kchat_migration_history,
}

eq_of_same_history : (xs ys : List Entry) → same_history xs ys ≡ true → xs ≡ ys
unfolding same_history
eq_of_same_history [] [] h = refl
eq_of_same_history [] (y ∷ ys) h = cc
eq_of_same_history (x ∷ xs) [] h = cc
eq_of_same_history (x ∷ xs) (y ∷ ys) h =
    ground (arith, eq_of_same_history xs ys, eq_of_bytes_eq x.1.0 y.1.0, eq_of_bytes_eq x.1.1 y.1.1)

-- What the bootstrap makes of the tables.
abbrev pub adopted : List Migration → Tables → Tables
adopted migrations t = elim t.kchat_migrations [
  | some rows ↦ t
  | none ↦ elim t.legacy_migrations [
    | none ↦ t
    | some rows ↦
        if same_history (sort_by_version (entries rows)) (expected_migrations migrations)
        then record t { kchat_migrations = some rows }
        else t
  ]
]

adopted_lem :
    (migrations : List Migration) (t : Tables) (rows : List AppliedMigration)
    → t.kchat_migrations ≡ none
    → (adopted migrations t).kchat_migrations ≡ some rows
    → (t.legacy_migrations ≡ some rows)
      × (sort_by_version (entries rows) ≡ expected_migrations migrations)
adopted_lem migrations t rows i j = elim (Option-cases t.legacy_migrations) [
  | inr old ↦ ground (
    arith,
    eq_of_same_history (sort_by_version (entries old.0)) (expected_migrations migrations),
    old.1,
  )
  | inl missing ↦ absurd (ground arith)
]

bootstrap_lem :
    (migrations : List Migration) (db : Database)
    → db.faults ≡ []
    → bootstrap_legacy_kchat_migration_history migrations db
      ≡ (ok tt, record db { tables = adopted migrations db.tables })
unfolding bootstrap_legacy_kchat_migration_history bootstrap_body in_bootstrap without_history
    with_legacy adopt_if_expected adopt_legacy read_legacy commit table_exists migration_err attempt
    prepare_cached execute query_row or_roll_back
bootstrap_lem migrations db h = ground arith

-- The database after the bootstrap.
abbrev pub bootstrapped : List Migration → Database → Database
bootstrapped migrations db = (bootstrap_legacy_kchat_migration_history migrations db).1

-- While SQLite does not fail and there is no history of the crate yet, the history that the bootstrap
-- leaves is that of the older table, and its versions, names and checksums are those of the embedded
-- migrations up to the legacy version: no other history is ever adopted.
pub bootstrap_adopts :
    (migrations : List Migration) (db : Database) (rows : List AppliedMigration)
    → db.faults ≡ []
    → db.tables.kchat_migrations ≡ none
    → (bootstrap_legacy_kchat_migration_history migrations db).1.tables.kchat_migrations ≡ some rows
    → (db.tables.legacy_migrations ≡ some rows)
      × (sort_by_version (entries rows) ≡ expected_migrations migrations)
bootstrap_adopts migrations db rows h i j =
    adopted_lem migrations db.tables rows i
      (subst (λ r. r.1.tables.kchat_migrations ≡ some rows) (bootstrap_lem migrations db h) j)

-- A bootstrap that fails leaves the tables as they were.
pub bootstrap_atomic :
    (migrations : List Migration) (db : Database) (e : MigrationError)
    → (bootstrap_legacy_kchat_migration_history migrations db).0 ≡ err e
    → (bootstrap_legacy_kchat_migration_history migrations db).1.tables ≡ db.tables
unfolding bootstrap_legacy_kchat_migration_history migration_err or_roll_back attempt
bootstrap_atomic migrations db e h = ground arith
