-- ===== src/Storage/Sqlite.antt =====
-- The database of crates/kchat-storage-provider and the calls of rusqlite and r2d2 that its code
-- makes, with the errors they return. The tables are those of the migrations of the crate.
pub mod Keeps
pub mod Transactions
use kchat_rust_sdk.Base.{
  ℕ, Bool, true, Option, none, some, List, [], ◌∷◌, ◌++◌, map, codes, Bytes, ltb, ℤ, Result, ok,
  err, if◌then◌else◌,
}
use kchat_rust_sdk.Base.Exec.{Stateful, pure, raise, lift, gets, modify, ◌>>=◌, ◌>>◌}
use kchat_rust_sdk.Storage.Table.{Table}

abbrev pub Text : Type 0
Text = Bytes

-- `rusqlite::Error`: of a failure of SQLite, the extended code and the detail.
pub data SqlError : Type 0 where
  sqlite_failure : ℕ → Option Text → SqlError
  query_returned_no_rows : SqlError
  to_sql_conversion_failure : SqlError
  from_sql_conversion_failure : SqlError
  other_sql_error : SqlError

abbrev pub Fallible {ℓ} : Type ℓ → Type ℓ
Fallible A = Result SqlError A

pub record DecryptedApplicationMessage : Type 0 where
  pub ciphertext_digest : Bytes
  pub plaintext : Bytes
  pub created_at : ℤ
  pub expires_at : ℤ

-- A row of a migration history of refinery.
pub record AppliedMigration : Type 0 where
  pub version : ℕ
  pub name : Text
  pub applied_on : Text
  pub checksum : Text

-- A row of the leaf nodes has no key but its rowid, so its place in the list stands for that. The two
-- tables of migration histories may not exist.
pub record Tables : Type 0 where
  pub encryption_keys : Table Bytes Bytes
  pub epoch_keys_pairs : Table (Bytes × (Bytes × ℕ)) Bytes
  pub group_data : Table (Bytes × Text) Bytes
  pub key_packages : Table Bytes Bytes
  pub own_leaf_nodes : Table Bytes Bytes
  pub proposals : Table (Bytes × Bytes) Bytes
  pub psks : Table Bytes Bytes
  pub signature_keys : Table Bytes Bytes
  pub group_epoch_message_secrets : Table (Bytes × ℕ) Bytes
  pub epoch_migration_state : Table (Unit {0}) ℕ
  pub decrypted_application_messages : Table (Bytes × Text) DecryptedApplicationMessage
  pub legacy_migrations : Option (List AppliedMigration)
  pub kchat_migrations : Option (List AppliedMigration)

-- The order in which SQLite visits the rows of a query without `ORDER BY`, which it does not promise.
pub record Scan : Type 1 where
  pub order : {A : Type 0} → List A → List A

-- The tables, and a schedule of failures: each call of the library takes one entry, and a call whose
-- entry is an error fails with it. An empty schedule never fails.
pub record Database : Type 0 where
  pub tables : Tables
  pub faults : List (Option SqlError)

abbrev pub Exec {ℓ} : Type ℓ → Type ℓ
Exec A = Stateful SqlError Database A

unfoldable pub attempt : Exec (Unit {0})
attempt db = elim db.faults [
  | [] ↦ (ok tt, db)
  | fault ∷ rest ↦ elim fault [
    | none ↦ (ok tt, record db { faults = rest })
    | some e ↦ (err e, record db { faults = rest })
  ]
]

-- `SqliteConnectionPool::checkout`
unfoldable pub checkout : Exec (Unit {0})
checkout = attempt

-- `prepare` and `prepare_cached`
unfoldable pub prepare_cached : Exec (Unit {0})
prepare_cached = attempt

-- `Statement::execute`
unfoldable pub execute : (Tables → Tables) → Exec (Unit {0})
execute f = attempt >> modify (λ db. record db { tables = f db.tables })

-- `Statement::query_row`: the columns of the row found go through the closure.
unfoldable pub query_row : {A B : Type 0} → (Tables → Option A) → (A → Fallible B) → Exec B
query_row find from_row = do
  attempt
  found ← gets (λ db. find db.tables)
  lift (elim found [ none ↦ err query_returned_no_rows | some a ↦ from_row a ])

-- `OptionalExtension::optional`
unfoldable pub no_row : {A : Type 0} → Fallible A → Fallible (Option A)
no_row (ok a) = ok (some a)
no_row (err e) = elim e [ query_returned_no_rows ↦ ok none | problem ↦ err problem ]

unfoldable pub optional : {A : Type 0} → Exec A → Exec (Option A)
optional act db = let (result, after) = act db in (no_row result, after)

-- `collect` of an iterator of results into a result
unfoldable pub collect : {A B : Type 0} → (A → Fallible B) → List A → Fallible (List B)
collect from_row [] = ok []
collect from_row (a ∷ rows) =
    let rest = collect from_row rows in
    elim (from_row a) [ err e ↦ err e | ok b ↦ elim rest [ err e ↦ err e | ok bs ↦ ok (b ∷ bs) ] ]

-- `Statement::query_map` and the collection of what it yields
unfoldable pub query_map : {A B : Type 0} → (Tables → List A) → (A → Fallible B) → Exec (List B)
query_map find from_row = do
  attempt
  found ← gets (λ db. find db.tables)
  lift (collect from_row found)

-- `u64` as a parameter: SQLite has no integer above 2 ^ 63 - 1.
unfoldable pub u64_to_sql : ℕ → Fallible ℕ
u64_to_sql n = if ltb n 9223372036854775808 then ok n else err to_sql_conversion_failure

-- An error drops the transaction, which rolls the tables back.
unfoldable pub or_roll_back :
    {E A : Type 0} → Tables → Result E A × Database → Result E A × Database
or_roll_back before (ok a, db) = (ok a, db)
or_roll_back before (err e, db) = (err e, record db { tables = before })

-- What a transaction runs once it has begun: `busy_timeout`, the closure, `commit`.
unfoldable pub until_commit : {A : Type 0} → Exec A → Exec A
until_commit f = do attempt; result ← f; attempt; pure result

-- `SqliteConnectionPool::transaction`
unfoldable pub transaction : {A : Type 0} → Exec A → Exec A
transaction f = do checkout; attempt; λ db. or_roll_back db.tables (until_commit f db)

-- `sqlite_error_context`, with the texts of an error code as parameters.
unfoldable pub sqlite_error_context : (ℕ → Text) → (ℕ → Text) → Text → SqlError → SqlError
sqlite_error_context display debug context (sqlite_failure code detail) =
    let text : Text = elim detail [ none ↦ display code | some d ↦ d ] in
    sqlite_failure code
      (some (context ++ codes ": " ++ text ++ codes " (" ++ debug code ++ codes ")"))
sqlite_error_context display debug context query_returned_no_rows = query_returned_no_rows
sqlite_error_context display debug context to_sql_conversion_failure = to_sql_conversion_failure
sqlite_error_context display debug context from_sql_conversion_failure = from_sql_conversion_failure
sqlite_error_context display debug context other_sql_error = other_sql_error

-- `map_err`
abbrev pub in_context {ℓ} : {A : Type ℓ} → (SqlError → SqlError) → Fallible A → Fallible A
in_context f (ok a) = ok a
in_context f (err e) = err (f e)

unfoldable pub map_err : {A : Type 0} → (SqlError → SqlError) → Exec A → Exec A
map_err f act db = let (result, after) = act db in (in_context f result, after)

-- `STORAGE_PROVIDER_VERSION`
abbrev pub storage_provider_version : ℕ
storage_provider_version = 1
