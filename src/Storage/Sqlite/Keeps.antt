-- ===== src/Storage/Sqlite/Keeps.antt =====
-- Invariants of the tables, one rule for each way to build an action on the database.
use kchat_rust_sdk.Base.{◌≡◌, Option, List, Result, ok, err, arith}
use kchat_rust_sdk.Base.Exec.{Stateful, map_error, pure, lift, gets, modify, continue, ◌>>=◌, ◌>>◌}
use kchat_rust_sdk.Storage.Sqlite.{
  Tables, Database, SqlError, Fallible, Exec, attempt, checkout, prepare_cached, execute,
  or_roll_back, until_commit, transaction, map_err, query_row, query_map, optional,
}

-- `m` keeps `P`, whether it succeeds or fails.
pub record Keeps {ℓ} {E : Type 0} {A : Type ℓ} (P : Tables → Type 0) (m : Stateful E Database A)
    : Type ℓ where
  pub after : (db : Database) → P db.tables → P (m db).1.tables

pub attempt-tables : (db : Database) → (attempt db).1.tables ≡ db.tables
unfolding attempt
attempt-tables db = ground arith

query_row-tables :
    {A B : Type 0} (find : Tables → Option A) (from_row : A → Fallible B) (db : Database)
    → (query_row find from_row db).1.tables ≡ db.tables
unfolding query_row
query_row-tables find from_row db = ground (arith, attempt-tables db)

query_map-tables :
    {A B : Type 0} (find : Tables → List A) (from_row : A → Fallible B) (db : Database)
    → (query_map find from_row db).1.tables ≡ db.tables
unfolding query_map
query_map-tables find from_row db = ground (arith, attempt-tables db)

or_roll_back_keeps :
    {A : Type 0} (P : Tables → Type 0) (before : Tables) (r : Fallible A) (db : Database)
    → P before
    → P db.tables
    → P (or_roll_back before (r, db)).1.tables
unfolding or_roll_back
or_roll_back_keeps P before (ok a) db b h = h
or_roll_back_keeps P before (err e) db b h = b

module _ {P : Tables → Type 0} where
  pub Keeps-attempt : Keeps P attempt
  Keeps-attempt = record { after = λ db h. rw (attempt-tables db) h }

  pub Keeps-checkout : Keeps P checkout
  unfolding checkout
  Keeps-checkout = Keeps-attempt

  pub Keeps-prepare_cached : Keeps P prepare_cached
  unfolding prepare_cached
  Keeps-prepare_cached = Keeps-attempt

  pub Keeps-lift {ℓ} : {E : Type 0} {A : Type ℓ} (r : Result E A) → Keeps P (lift {S = Database} r)
  Keeps-lift r = record { after = λ db h. h }

  pub Keeps-pure {ℓ} : {E : Type 0} {A : Type ℓ} (a : A) → Keeps P (pure {E = E} {S = Database} a)
  Keeps-pure a = record { after = λ db h. h }

  module _ {ℓ κ} {E : Type 0} {A : Type ℓ} {B : Type κ} where
    Keeps-continue :
        (next : A → Stateful E Database B) (r : Result E A) (db : Database)
        → ((a : A) → Keeps P (next a))
        → P db.tables
        → P (continue next (r, db)).1.tables
    Keeps-continue next (ok a) db k h = (k a).after db h
    Keeps-continue next (err e) db k h = h

    pub Keeps-bind :
        (m : Stateful E Database A) (next : A → Stateful E Database B)
        → Keeps P m
        → ((a : A) → Keeps P (next a))
        → Keeps P (m >>= next)
    Keeps-bind m next km k = record {
      after = λ db h. Keeps-continue next (m db).0 (m db).1 k (km.after db h);
    }

    pub Keeps-then :
        (m : Stateful E Database A) (next : Stateful E Database B)
        → Keeps P m
        → Keeps P next
        → Keeps P (m >> next)
    Keeps-then m next km k = Keeps-bind m (λ _. next) km (λ _. k)

  pub Keeps-execute : (f : Tables → Tables) → ((t : Tables) → P t → P (f t)) → Keeps P (execute f)
  unfolding execute
  Keeps-execute f k =
      Keeps-then attempt (modify (λ db. record db { tables = f db.tables })) Keeps-attempt
        (record { after = λ db h. k db.tables h })

  pub Keeps-map_err :
      {A : Type 0} (f : SqlError → SqlError) (m : Exec A) → Keeps P m → Keeps P (map_err f m)
  unfolding map_err
  Keeps-map_err f m km = record { after = λ db h. km.after db h }

  pub Keeps-map_error {ℓ} :
      {D E : Type 0} {A : Type ℓ} (f : D → E) (m : Stateful D Database A)
      → Keeps P m
      → Keeps P (map_error f m)
  Keeps-map_error f m km = record { after = λ db h. km.after db h }

  pub Keeps-gets {ℓ} : {E : Type 0} {A : Type ℓ} (f : Database → A) → Keeps P (gets {E = E} f)
  Keeps-gets f = record { after = λ db h. h }

  pub Keeps-query_row :
      {A B : Type 0} (find : Tables → Option A) (from_row : A → Fallible B)
      → Keeps P (query_row find from_row)
  Keeps-query_row find from_row = record {
    after = λ db h. rw (query_row-tables find from_row db) h;
  }

  pub Keeps-query_map :
      {A B : Type 0} (find : Tables → List A) (from_row : A → Fallible B)
      → Keeps P (query_map find from_row)
  Keeps-query_map find from_row = record {
    after = λ db h. rw (query_map-tables find from_row db) h;
  }

  pub Keeps-optional : {A : Type 0} (m : Exec A) → Keeps P m → Keeps P (optional m)
  unfolding optional
  Keeps-optional m km = record { after = λ db h. km.after db h }

  pub Keeps-transaction : {A : Type 0} (m : Exec A) → Keeps P m → Keeps P (transaction m)
  unfolding transaction until_commit
  Keeps-transaction m km = Keeps-then checkout _ Keeps-checkout (
      Keeps-then attempt _ Keeps-attempt (record {
        after = λ db h.
            or_roll_back_keeps P db.tables (until_commit m db).0 (until_commit m db).1 h (
              (Keeps-then attempt _ Keeps-attempt (
                  Keeps-bind m _ km (λ a. Keeps-then attempt _ Keeps-attempt (Keeps-pure a)))).after
                db h);
      }))

pub ruleset keeps_rules = (
  Keeps-checkout, Keeps-prepare_cached, Keeps-lift, Keeps-pure, Keeps-bind, Keeps-then,
  Keeps-execute, Keeps-map_err, Keeps-map_error, Keeps-gets, Keeps-query_row, Keeps-query_map,
  Keeps-optional, Keeps-transaction,
)
