-- ===== src/Base/Exec.antt =====
-- Methods that change a state and may fail. What was written before a failure stays written, so the
-- state comes back beside the error too.
use kchat_rust_sdk.Base.Outcome.{Result, ok, err}

abbrev pub Stateful {ℓ} : Type 0 → Type 0 → Type ℓ → Type ℓ
Stateful E S A = S → Result E A × S

module _ {ℓ} {E S : Type 0} {A : Type ℓ} where
  abbrev pub pure : A → Stateful E S A
  pure a s = (ok a, s)

  abbrev pub raise : E → Stateful E S A
  raise e s = (err e, s)

  -- A fallible computation that leaves the state alone.
  abbrev pub lift : Result E A → Stateful E S A
  lift r s = (r, s)

  abbrev pub gets : (S → A) → Stateful E S A
  gets f s = (ok (f s), s)

module _ {E S : Type 0} where
  abbrev pub modify : (S → S) → Stateful E S (Unit {0})
  modify f s = (ok tt, f s)

module _ {ℓ κ} {E S : Type 0} {A : Type ℓ} {B : Type κ} where
  abbrev pub continue : (A → Stateful E S B) → Result E A × S → Result E B × S
  continue next (err e, s) = (err e, s)
  continue next (ok a, s) = next a s

  infixl 10 ◌>>=◌ ◌>>◌
  abbrev pub ◌>>=◌ : Stateful E S A → (A → Stateful E S B) → Stateful E S B
  ◌>>=◌ first next s = continue next (first s)

  abbrev pub ◌>>◌ : Stateful E S A → Stateful E S B → Stateful E S B
  ◌>>◌ first second s = continue (λ _. second) (first s)

-- `map_err` with a change of the error's type.
abbrev pub with_error {ℓ} : {D E : Type 0} {A : Type ℓ} → (D → E) → Result D A → Result E A
with_error f (ok a) = ok a
with_error f (err d) = err (f d)

abbrev pub map_error {ℓ} : {D E S : Type 0} {A : Type ℓ} → (D → E) → Stateful D S A → Stateful E S A
map_error f act s = let (result, after) = act s in (with_error f result, after)
