-- ===== src/Storage/Sqlite/Transactions.antt =====
-- A transaction takes effect as a whole or not at all.
use kchat_rust_sdk.Base.{◌≡◌, ◌∙◌, [], ok, err, arith}
use kchat_rust_sdk.Storage.Sqlite.{
  Database, SqlError, Exec, attempt, checkout, or_roll_back, until_commit, transaction,
}
use kchat_rust_sdk.Storage.Sqlite.Keeps.{attempt-tables}

-- A transaction that fails, at the checkout of its connection, at its start, in its body or at its
-- commit, leaves the tables as they were.
pub transaction_atomic :
    {A : Type 0} (body : Exec A) (db : Database) (e : SqlError)
    → (transaction body db).0 ≡ err e
    → (transaction body db).1.tables ≡ db.tables
unfolding transaction checkout until_commit or_roll_back attempt
transaction_atomic body db e h = ground arith

-- While the library's own calls do not fail, a transaction whose body succeeds has the result and the
-- effect of its body.
pub transaction-eq-ok :
    {A : Type 0} (body : Exec A) (db after : Database) (a : A)
    → db.faults ≡ []
    → body db ≡ (ok a, after)
    → after.faults ≡ []
    → transaction body db ≡ (ok a, after)
unfolding transaction checkout until_commit or_roll_back attempt
transaction-eq-ok body db after a i h j = ground arith

-- The database that the body of a transaction starts from.
abbrev pub begun : Database → Database
begun db = (attempt (attempt (attempt db).1).1).1

pub begun-tables : (db : Database) → (begun db).tables ≡ db.tables
begun-tables db =
    attempt-tables (attempt (attempt db).1).1 ∙ attempt-tables (attempt db).1 ∙ attempt-tables db

-- A transaction that succeeds has run its body, which succeeded, and has its effect.
pub transaction-committed :
    {A : Type 0} (body : Exec A) (db : Database) (a : A)
    → (transaction body db).0 ≡ ok a
    → ((body (begun db)).0 ≡ ok a) × ((transaction body db).1.tables ≡ (body (begun db)).1.tables)
unfolding transaction checkout until_commit or_roll_back
transaction-committed body db a h = ground (arith, attempt-tables (body (begun db)).1)
