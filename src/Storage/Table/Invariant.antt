-- ===== src/Storage/Table/Invariant.antt =====
-- The primary keys, and the version of the rows, under the statements that change a table.
use kchat_rust_sdk.Base.{ℕ, ◌≡◌, refl, Bool, true, false, [], ◌∷◌, ◌++◌, arith, ◌==◌}
use kchat_rust_sdk.Storage.Table.{
  SqlKey, Row, Table, delete_where, exists_where, insert_or_replace, insert_or_ignore, upsert,
  upsert_if, UniqueKey,
}
use kchat_rust_sdk.Storage.Table.Laws.{
  delete_where-UniqueKey, insert_or_replace-UniqueKey, insert_or_ignore-UniqueKey,
}

-- Every row has the version.
abbrev pub AllOf : {K V : Type 0} → ℕ → Table K V → Type 0
AllOf version [] = Unit {0}
AllOf version (r ∷ rows) = ((r.provider_version == version) ≡ true) × AllOf version rows

module _ {K V : Type 0} where
  pub delete_where-AllOf :
      (version : ℕ) (q : Row K V → Bool) (rows : Table K V)
      → AllOf version rows
      → AllOf version (delete_where q rows)
  unfolding delete_where
  delete_where-AllOf version q [] h = tt
  delete_where-AllOf version q (r ∷ rows) h = ground (arith, delete_where-AllOf version q rows h.1)

  pub append-AllOf :
      (version : ℕ) (rows : Table K V) (r : Row K V)
      → AllOf version rows
      → (r.provider_version == version) ≡ true
      → AllOf version (rows ++ r ∷ [])
  append-AllOf version [] r h v = (v, tt)
  append-AllOf version (s ∷ rows) r h v = (h.0, append-AllOf version rows r h.1 v)

module _ {K V : Type 0} ⦃sql : SqlKey K⦄ where
  -- The primary key that most tables have, and one version.
  abbrev pub Keyed : ℕ → Table K V → Type 0
  Keyed version rows = UniqueKey rows × AllOf version rows

  pub delete_where-Keyed :
      (version : ℕ) (q : Row K V → Bool) (rows : Table K V)
      → Keyed version rows
      → Keyed version (delete_where q rows)
  delete_where-Keyed version q rows h =
      (delete_where-UniqueKey q rows h.0, delete_where-AllOf version q rows h.1)

  pub insert_or_replace-Keyed :
      (version : ℕ) (k : K) (x : V) (rows : Table K V)
      → Keyed version rows
      → Keyed version (insert_or_replace version k x rows)
  unfolding insert_or_replace
  insert_or_replace-Keyed version k x rows h = (
    insert_or_replace-UniqueKey version k x rows h.0,
    append-AllOf version (delete_where (λ r. sql.same r.key k) rows)
        (record { provider_version = version; key = k; value = x })
        (delete_where-AllOf version (λ r. sql.same r.key k) rows h.1) (ground arith),
  )

  insert_or_ignore-AllOf :
      (version : ℕ) (k : K) (x : V) (rows : Table K V)
      → AllOf version rows
      → AllOf version (insert_or_ignore version k x rows)
  unfolding insert_or_ignore
  insert_or_ignore-AllOf version k x rows h = ground (
    arith,
    append-AllOf version rows (record { provider_version = version; key = k; value = x }) h,
  )

  pub insert_or_ignore-Keyed :
      (version : ℕ) (k : K) (x : V) (rows : Table K V)
      → Keyed version rows
      → Keyed version (insert_or_ignore version k x rows)
  insert_or_ignore-Keyed version k x rows h =
      (insert_or_ignore-UniqueKey version k x rows h.0, insert_or_ignore-AllOf version k x rows h.1)

  -- An update changes no key, so a condition on the key finds what it found, and the new row.
  exists_where-upsert_if :
      (p : V → Bool) (version : ℕ) (k j : K) (x : V) (rows : Table K V)
      → sql.same k j ≡ false
      → exists_where (λ r. sql.same r.key j) rows ≡ false
      → exists_where (λ r. sql.same r.key j) (upsert_if p version k x rows) ≡ false
  unfolding exists_where upsert_if
  exists_where-upsert_if p version k j x [] f h = ground arith
  exists_where-upsert_if p version k j x (r ∷ rows) f h =
      ground (arith, exists_where-upsert_if p version k j x rows f)

  upsert_if-UniqueKey :
      (p : V → Bool) (version : ℕ) (k : K) (x : V) (rows : Table K V)
      → UniqueKey rows
      → UniqueKey (upsert_if p version k x rows)
  unfolding upsert_if exists_where
  upsert_if-UniqueKey p version k x [] h = (refl, tt)
  upsert_if-UniqueKey p version k x (r ∷ rows) h = ground (
    arith,
    upsert_if-UniqueKey p version k x rows h.1,
    exists_where-upsert_if p version k r.key x rows,
    sql.eq_of_same r.key k,
    sql.eq_of_same k r.key,
    sql.same_refl k,
  )

  upsert_if-AllOf :
      (p : V → Bool) (version : ℕ) (k : K) (x : V) (rows : Table K V)
      → AllOf version rows
      → AllOf version (upsert_if p version k x rows)
  unfolding upsert_if
  upsert_if-AllOf p version k x [] h = (ground arith, tt)
  upsert_if-AllOf p version k x (r ∷ rows) h =
      ground (arith, upsert_if-AllOf p version k x rows h.1)

  pub upsert_if-Keyed :
      (p : V → Bool) (version : ℕ) (k : K) (x : V) (rows : Table K V)
      → Keyed version rows
      → Keyed version (upsert_if p version k x rows)
  upsert_if-Keyed p version k x rows h =
      (upsert_if-UniqueKey p version k x rows h.0, upsert_if-AllOf p version k x rows h.1)

  -- In a table of one version the two primary keys are one.
  exists_where-upsert :
      (version : ℕ) (k j : K) (x : V) (rows : Table K V)
      → sql.same k j ≡ false
      → exists_where (λ r. sql.same r.key j) rows ≡ false
      → exists_where (λ r. sql.same r.key j) (upsert version k x rows) ≡ false
  unfolding exists_where upsert
  exists_where-upsert version k j x [] f h = ground arith
  exists_where-upsert version k j x (r ∷ rows) f h =
      ground (arith, exists_where-upsert version k j x rows f)

  upsert-AllOf :
      (version : ℕ) (k : K) (x : V) (rows : Table K V)
      → AllOf version rows
      → AllOf version (upsert version k x rows)
  unfolding upsert
  upsert-AllOf version k x [] h = (ground arith, tt)
  upsert-AllOf version k x (r ∷ rows) h = ground (arith, upsert-AllOf version k x rows h.1)

  upsert-UniqueKey :
      (version : ℕ) (k : K) (x : V) (rows : Table K V)
      → AllOf version rows
      → UniqueKey rows
      → UniqueKey (upsert version k x rows)
  unfolding upsert exists_where
  upsert-UniqueKey version k x [] v h = (refl, tt)
  upsert-UniqueKey version k x (r ∷ rows) v h = ground (
    arith,
    upsert-UniqueKey version k x rows v.1 h.1,
    exists_where-upsert version k r.key x rows,
    sql.eq_of_same r.key k,
    sql.eq_of_same k r.key,
    sql.same_refl k,
  )

  pub upsert-Keyed :
      (version : ℕ) (k : K) (x : V) (rows : Table K V)
      → Keyed version rows
      → Keyed version (upsert version k x rows)
  upsert-Keyed version k x rows h =
      (upsert-UniqueKey version k x rows h.1 h.0, upsert-AllOf version k x rows h.1)
