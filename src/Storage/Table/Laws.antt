-- ===== src/Storage/Table/Laws.antt =====
-- What a statement leaves for the queries that follow it, and for the primary key.
use kchat_rust_sdk.Base.{
  ℕ, ◌≡◌, refl, Bool, true, false, ◌&&◌, none, some, [], ◌∷◌, ◌++◌, arith, ◌==◌, inl, inr,
  Bool-cases, if◌then◌else◌,
}
use kchat_rust_sdk.Storage.Table.{
  SqlKey, Row, Table, delete_where, exists_where, has_key, select, insert_or_replace,
  insert_or_ignore, upsert, UniqueKey,
}

module _ {K V : Type 0} ⦃sql : SqlKey K⦄ where
  -- A deletion whose condition reads the version and the key only.
  pub select-delete_where :
      (q : ℕ → K → Bool) (version : ℕ) (k : K) (rows : Table K V)
      → select version k (delete_where (λ r. q r.provider_version r.key) rows)
        ≡ (if q version k then none else select version k rows)
  unfolding select delete_where
  select-delete_where q version k [] = ground arith
  select-delete_where q version k (r ∷ rows) =
      ground (arith, select-delete_where q version k rows, sql.eq_of_same r.key k)

  pub select-delete_key :
      (version : ℕ) (k j : K) (rows : Table K V)
      → select version j (delete_where (has_key version k) rows)
        ≡ (if sql.same k j then none else select version j rows)
  select-delete_key version k j rows = ground (
    arith,
    select-delete_where (λ n l. sql.same l k && (n == version)) version j rows,
    sql.eq_of_same k j,
    sql.eq_of_same j k,
    sql.same_refl j,
  )

  select-append :
      (version : ℕ) (k : K) (rows : Table K V) (r : Row K V)
      → select version k (rows ++ r ∷ []) ≡ elim (select version k rows) [
        | some x ↦ some x
        | none ↦ if has_key version k r then some r.value else none
      ]
  unfolding select
  select-append version k [] r = refl
  select-append version k (s ∷ rows) r = ground (arith, select-append version k rows r)

  pub select-insert_or_replace :
      (version : ℕ) (k j : K) (x : V) (rows : Table K V)
      → select version j (insert_or_replace version k x rows)
        ≡ (if sql.same k j then some x else select version j rows)
  unfolding insert_or_replace
  select-insert_or_replace version k j x rows = ground (
    arith,
    select-append version j (delete_where (λ r. sql.same r.key k) rows)
        (record { provider_version = version; key = k; value = x }),
    select-delete_where (λ _ l. sql.same l k) version j rows,
    sql.eq_of_same k j,
    sql.eq_of_same j k,
    sql.same_refl j,
  )

  pub select-upsert :
      (version : ℕ) (k j : K) (x : V) (rows : Table K V)
      → select version j (upsert version k x rows)
        ≡ (if sql.same k j then some x else select version j rows)
  unfolding select upsert
  select-upsert version k j x [] = ground arith
  select-upsert version k j x (r ∷ rows) = ground (
    arith,
    select-upsert version k j x rows,
    sql.eq_of_same k j,
    sql.eq_of_same r.key k,
    sql.eq_of_same r.key j,
    sql.same_refl j,
    sql.same_refl k,
  )

  exists_where-append :
      (p : Row K V → Bool) (rows : Table K V) (r : Row K V)
      → exists_where p (rows ++ r ∷ []) ≡ (if exists_where p rows then true else p r)
  unfolding exists_where
  exists_where-append p [] r = ground arith
  exists_where-append p (s ∷ rows) r = ground (arith, exists_where-append p rows r)

  -- A deletion finds nothing that was not there.
  pub exists_where-delete_where :
      (p q : Row K V → Bool) (rows : Table K V)
      → exists_where p rows ≡ false
      → exists_where p (delete_where q rows) ≡ false
  unfolding exists_where delete_where
  exists_where-delete_where p q [] h = refl
  exists_where-delete_where p q (r ∷ rows) h = ground (arith, exists_where-delete_where p q rows)

  deleted :
      (k : K) (rows : Table K V)
      → exists_where (λ r. sql.same r.key k) (delete_where (λ r. sql.same r.key k) rows) ≡ false
  unfolding exists_where delete_where
  deleted k [] = refl
  deleted k (r ∷ rows) = ground (arith, deleted k rows)

  pub delete_where-UniqueKey :
      (q : Row K V → Bool) (rows : Table K V) → UniqueKey rows → UniqueKey (delete_where q rows)
  unfolding delete_where
  delete_where-UniqueKey q [] h = tt
  delete_where-UniqueKey q (r ∷ rows) h = ground (
    arith,
    delete_where-UniqueKey q rows h.1,
    exists_where-delete_where (λ s. sql.same s.key r.key) q rows h.0,
  )

  append-UniqueKey :
      (rows : Table K V) (r : Row K V)
      → UniqueKey rows
      → exists_where (λ s. sql.same s.key r.key) rows ≡ false
      → UniqueKey (rows ++ r ∷ [])
  unfolding exists_where
  append-UniqueKey [] r h f = (refl, tt)
  append-UniqueKey (s ∷ rows) r h f = ground (
    arith,
    append-UniqueKey rows r h.1,
    exists_where-append (λ t. sql.same t.key s.key) rows r,
    sql.eq_of_same r.key s.key,
    sql.same_refl s.key,
  )

  pub insert_or_replace-UniqueKey :
      (version : ℕ) (k : K) (x : V) (rows : Table K V)
      → UniqueKey rows
      → UniqueKey (insert_or_replace version k x rows)
  unfolding insert_or_replace
  insert_or_replace-UniqueKey version k x rows h =
      append-UniqueKey (delete_where (λ r. sql.same r.key k) rows)
        (record { provider_version = version; key = k; value = x })
        (delete_where-UniqueKey (λ r. sql.same r.key k) rows h) (deleted k rows)

  pub insert_or_ignore-UniqueKey :
      (version : ℕ) (k : K) (x : V) (rows : Table K V)
      → UniqueKey rows
      → UniqueKey (insert_or_ignore version k x rows)
  unfolding insert_or_ignore
  insert_or_ignore-UniqueKey version k x rows h =
      elim (Bool-cases (exists_where (λ r. sql.same r.key k) rows)) [
        | inl old ↦ rw old h
        | inr new ↦ rw new (
            append-UniqueKey rows (record { provider_version = version; key = k; value = x }) h new)
      ]
