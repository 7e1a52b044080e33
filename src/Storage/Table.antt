-- ===== src/Storage/Table.antt =====
-- An SQLite table of crates/kchat-storage-provider, and the SQL statements that its queries use. A row
-- has the column `provider_version`, the columns of the key and the value.
pub mod Laws
pub mod Invariant
pub mod Values
use kchat_rust_sdk.Base.{
  ℕ, ◌≡◌, refl, Bool, true, false, ◌&&◌, not, Option, none, some, List, [], ◌∷◌, ◌++◌, arith, ◌==◌,
  ==_iff, Bytes, bytes_eq, bytes_eq_refl, eq_of_bytes_eq, if◌then◌else◌,
}

-- How SQLite compares the columns of a key.
pub record SqlKey (K : Type 0) : Type 0 where
  pub same : K → K → Bool
  pub same_refl : (k : K) → same k k ≡ true
  pub eq_of_same : (k l : K) → same k l ≡ true → k ≡ l

instance abbrev pub bytes_key : SqlKey Bytes
bytes_key = record { same = bytes_eq; same_refl = bytes_eq_refl; eq_of_same = eq_of_bytes_eq }

instance abbrev pub number_key : SqlKey ℕ
number_key = record {
  same = ◌==◌;
  same_refl = λ k. (==_iff k k).1 refl;
  eq_of_same = λ k l h. (==_iff k l).0 h;
}

-- The key of a table of one row for each version.
instance abbrev pub unit_key : SqlKey (Unit {0})
unit_key = record { same = λ _ _. true; same_refl = λ _. refl; eq_of_same = λ _ _ _. refl }

pub pair_same_refl :
    {K L : Type 0} (k : SqlKey K) (l : SqlKey L) (x : K × L)
    → (k.same x.0 x.0 && l.same x.1 x.1) ≡ true
pair_same_refl k l x = ground (arith, k.same_refl x.0, l.same_refl x.1)

pub eq_of_pair_same :
    {K L : Type 0} (k : SqlKey K) (l : SqlKey L) (x y : K × L)
    → (k.same x.0 y.0 && l.same x.1 y.1) ≡ true
    → x ≡ y
eq_of_pair_same k l x y h = ground (arith, k.eq_of_same x.0 y.0, l.eq_of_same x.1 y.1)

instance abbrev pub pair_key : {K L : Type 0} ⦃k : SqlKey K⦄ ⦃l : SqlKey L⦄ → SqlKey (K × L)
pair_key ⦃k⦄ ⦃l⦄ = record {
  same = λ x y. k.same x.0 y.0 && l.same x.1 y.1;
  same_refl = pair_same_refl k l;
  eq_of_same = eq_of_pair_same k l;
}

pub record Row (K V : Type 0) : Type 0 where
  pub provider_version : ℕ
  pub key : K
  pub value : V

abbrev pub Table : Type 0 → Type 0 → Type 0
Table K V = List (Row K V)

module _ {K V : Type 0} where
  -- `DELETE FROM … WHERE`
  unfoldable pub delete_where : (Row K V → Bool) → Table K V → Table K V
  delete_where p [] = []
  delete_where p (r ∷ rows) = let rest = delete_where p rows in if p r then rest else r ∷ rest

  -- `SELECT * FROM … WHERE`
  unfoldable pub select_where : (Row K V → Bool) → Table K V → Table K V
  select_where p [] = []
  select_where p (r ∷ rows) = let rest = select_where p rows in if p r then r ∷ rest else rest

  -- `SELECT EXISTS(SELECT 1 FROM … WHERE)`
  unfoldable pub exists_where : (Row K V → Bool) → Table K V → Bool
  exists_where p [] = false
  exists_where p (r ∷ rows) = if p r then true else exists_where p rows

  -- the row that `query_row` reads of those selected
  abbrev pub first_value : Table K V → Option V
  first_value [] = none
  first_value (r ∷ rows) = some r.value

  unfoldable pub values : Table K V → List V
  values [] = []
  values (r ∷ rows) = r.value ∷ values rows

module _ {K V : Type 0} ⦃sql : SqlKey K⦄ where
  -- `WHERE key = ? AND provider_version = ?`
  abbrev pub has_key : ℕ → K → Row K V → Bool
  has_key version k r = sql.same r.key k && (r.provider_version == version)

  -- The row that such a query of a key finds.
  unfoldable pub select : ℕ → K → Table K V → Option V
  select version k [] = none
  select version k (r ∷ rows) = if has_key version k r then some r.value else select version k rows

  -- `INSERT OR REPLACE` with the primary key `key`: the row that has it goes, whatever its version,
  -- and the new row is the last by rowid.
  unfoldable pub insert_or_replace : ℕ → K → V → Table K V → Table K V
  insert_or_replace version k x rows =
      delete_where (λ r. sql.same r.key k) rows
      ++ record { provider_version = version; key = k; value = x } ∷ []

  -- `INSERT OR IGNORE` with the primary key `key`: a row that has it stays, whatever its version.
  unfoldable pub insert_or_ignore : ℕ → K → V → Table K V → Table K V
  insert_or_ignore version k x rows =
      if exists_where (λ r. sql.same r.key k) rows
      then rows
      else rows ++ record { provider_version = version; key = k; value = x } ∷ []

  -- `INSERT … ON CONFLICT(provider_version, key) DO UPDATE SET value = excluded.value`
  unfoldable pub upsert : ℕ → K → V → Table K V → Table K V
  upsert version k x [] = record { provider_version = version; key = k; value = x } ∷ []
  upsert version k x (r ∷ rows) =
      if has_key version k r then record r { value = x } ∷ rows else r ∷ upsert version k x rows

  -- `INSERT … ON CONFLICT(key) DO UPDATE SET provider_version = excluded.provider_version, value =
  -- excluded.value WHERE …`: a row in conflict that the condition refuses stays.
  unfoldable pub upsert_if : (V → Bool) → ℕ → K → V → Table K V → Table K V
  upsert_if p version k x [] = record { provider_version = version; key = k; value = x } ∷ []
  upsert_if p version k x (r ∷ rows) =
      if sql.same r.key k
      then (if p r.value
          then record { provider_version = version; key = k; value = x } ∷ rows
          else r ∷ rows)
      else r ∷ upsert_if p version k x rows

  -- No two rows have the key.
  abbrev pub UniqueKey : Table K V → Type 0
  UniqueKey [] = Unit {0}
  UniqueKey (r ∷ rows) = (exists_where (λ s. sql.same s.key r.key) rows ≡ false) × UniqueKey rows
