-- ===== src/Storage/Table/Values.antt =====
-- Statements whose condition reads the value of a row, in a table with its primary key.
use kchat_rust_sdk.Base.{
  ℕ, ◌≡◌, refl, Bool, true, false, ◌&&◌, Option, none, some, [], ◌∷◌, arith, ◌==◌, if◌then◌else◌,
}
use kchat_rust_sdk.Storage.Table.{
  SqlKey, Row, Table, has_key, select, select_where, exists_where, upsert_if, delete_where,
  first_value, UniqueKey,
}
use kchat_rust_sdk.Storage.Table.Invariant.{AllOf}

-- A value that passes a test.
abbrev pub passing {ℓ} : {V : Type ℓ} → (V → Bool) → Option V → Option V
passing p none = none
passing p (some x) = if p x then some x else none

module _ {K V : Type 0} ⦃sql : SqlKey K⦄ where
  no_row_passes :
      (version : ℕ) (k : K) (p : V → Bool) (rows : Table K V)
      → exists_where (λ r. sql.same r.key k) rows ≡ false
      → first_value (select_where (λ r. has_key version k r && p r.value) rows) ≡ none
  unfolding exists_where select_where
  no_row_passes version k p [] h = refl
  no_row_passes version k p (r ∷ rows) h = ground (arith, no_row_passes version k p rows)

  pub first_value-select_where :
      (version : ℕ) (k : K) (p : V → Bool) (rows : Table K V)
      → UniqueKey rows
      → first_value (select_where (λ r. has_key version k r && p r.value) rows)
        ≡ passing p (select version k rows)
  unfolding select_where select
  first_value-select_where version k p [] h = refl
  first_value-select_where version k p (r ∷ rows) h = ground (
    arith,
    first_value-select_where version k p rows h.1,
    no_row_passes version k p rows,
    sql.eq_of_same r.key k,
  )

  pub select-upsert_if :
      (version : ℕ) (p : V → Bool) (k j : K) (x : V) (rows : Table K V)
      → AllOf version rows
      → select version j (upsert_if p version k x rows) ≡ (
          if sql.same k j
          then elim (select version k rows) [
            | none ↦ some x
            | some old ↦ if p old then some x else some old
          ]
          else select version j rows)
  unfolding select upsert_if
  select-upsert_if version p k j x [] h = ground arith
  select-upsert_if version p k j x (r ∷ rows) h = ground (
    arith,
    select-upsert_if version p k j x rows h.1,
    sql.eq_of_same k j,
    sql.eq_of_same r.key k,
    sql.eq_of_same r.key j,
    sql.same_refl j,
    sql.same_refl k,
  )

  select_absent :
      (version : ℕ) (k : K) (q : Row K V → Bool) (rows : Table K V)
      → exists_where (λ r. sql.same r.key k) rows ≡ false
      → select version k (delete_where q rows) ≡ none
  unfolding exists_where delete_where select
  select_absent version k q [] h = refl
  select_absent version k q (r ∷ rows) h = ground (arith, select_absent version k q rows)

  -- Rows that no reader sees may go.
  pub passing-select-delete_where :
      (version : ℕ) (k : K) (p q : V → Bool) (rows : Table K V)
      → UniqueKey rows
      → ((x : V) → q x ≡ true → p x ≡ false)
      → passing p
          (select version k (delete_where (λ r. (r.provider_version == version) && q r.value) rows))
        ≡ passing p (select version k rows)
  unfolding delete_where select
  passing-select-delete_where version k p q [] h l = refl
  passing-select-delete_where version k p q (r ∷ rows) h l = ground (
    arith,
    passing-select-delete_where version k p q rows h.1 l,
    select_absent version k (λ r. (r.provider_version == version) && q r.value) rows,
    sql.eq_of_same r.key k,
    l r.value,
  )
