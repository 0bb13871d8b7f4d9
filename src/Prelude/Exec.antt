-- ===== src/Prelude/Exec.antt =====
-- Handlers and services that read and write a store and may return an error. What was written
-- before an error stays written, so the store comes back beside the error too.
pub mod Laws
use mathlib.Core.Bool.{Bool, true, false}
use mathlib.Core.Option.{Option, none, some}
use mathlib.Core.List.{List, [], ◌∷◌}

pub data Result {ℓ} (E A : Type ℓ) : Type ℓ where
  ok : A → Result E A
  err : E → Result E A

abbrev pub Exec : Type 0 → Type 0 → Type 0 → Type 0
Exec S E A = S → Result E A × S

module _ {S E A B : Type 0} where
  -- The rest of a body, run only if no error was returned.
  abbrev pub resume : (A → Exec S E B) → Result E A × S → Result E B × S
  resume f (ok a, s) = f a s
  resume f (err e, s) = (err e, s)

  infixl 5 ◌>>=◌ ◌>>◌
  abbrev pub ◌>>=◌ : Exec S E A → (A → Exec S E B) → Exec S E B
  ◌>>=◌ m f s = resume f (m s)

  abbrev pub ◌>>◌ : Exec S E A → Exec S E B → Exec S E B
  m >> k = m >>= λ _. k

module _ {S E A : Type 0} where
  abbrev pub pure : A → Exec S E A
  pure a s = (ok a, s)

  -- `return err`
  abbrev pub throw : E → Exec S E A
  throw e s = (err e, s)

  abbrev pub gets : (S → A) → Exec S E A
  gets f s = (ok (f s), s)

  -- `if err != nil { return ... }` on a value that may be missing.
  abbrev pub or_throw : E → Option A → Exec S E A
  or_throw e none s = (err e, s)
  or_throw e (some a) s = (ok a, s)

  -- A step that gives a new store or fails; a failure leaves the store as it was.
  abbrev pub attempt : E → (S → Option (A × S)) → Exec S E A
  attempt e f s = elim (f s) [ none ↦ (err e, s) | some (a, s') ↦ (ok a, s') ]

module _ {S E : Type 0} where
  -- A read that may return an error.
  abbrev pub check : (S → Result E (Unit {0})) → Exec S E (Unit {0})
  check f s = (f s, s)

  -- `if c { return err }`
  abbrev pub throw_if : Bool → E → Exec S E (Unit {0})
  throw_if true e s = (err e, s)
  throw_if false e s = (ok tt, s)

  -- `_ = f()`: the error is dropped.
  abbrev pub ignore : {A : Type 0} → (S → Option (A × S)) → Exec S E (Unit {0})
  ignore f s = elim (f s) [ none ↦ (ok tt, s) | some (a, s') ↦ (ok tt, s') ]

  -- `for _, x := range xs { body }`, left at the first error.
  unfoldable pub for_each : {A : Type 0} → List A → (A → Exec S E (Unit {0})) → Exec S E (Unit {0})
  for_each [] body = pure tt
  for_each (x ∷ xs) body = body x >> for_each xs body

module _ {S E A : Type 0} where
  -- An error is given back inside another one; `fmt.Errorf("...: %w", err)`.
  abbrev pub wrap_result : (E → E) → Result E A × S → Result E A × S
  wrap_result f (ok a, s) = (ok a, s)
  wrap_result f (err e, s) = (err (f e), s)

  abbrev pub wrap_err : (E → E) → Exec S E A → Exec S E A
  wrap_err f m s = wrap_result f (m s)
