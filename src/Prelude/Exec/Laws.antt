-- ===== src/Prelude/Exec/Laws.antt =====
-- Taking a run apart that returned a result, or that returned an error.
use mathlib.Core.Path.{◌≡◌, refl, subst}
use mathlib.Core.Bool.{Bool, true, false}
use mathlib.Core.Option.{Option, none, some}
use native.Mathlib.Omega.{arith}
use project_tracker.Prelude.Exec.{Result, ok, err, Exec, resume, ◌>>=◌, attempt, or_throw, throw_if}

module _ {S E A B : Type 0} where
  resume_ok :
      (f : A → Exec S E B) (r : Result E A × S) {b : B} {s' : S}
      → resume f r ≡ (ok b, s')
      → (a : A) × (s : S) × (r ≡ (ok a, s)) × (f a s ≡ (ok b, s'))
  resume_ok f (ok a, s) h = (a, s, refl, h)
  resume_ok f (err e, s) h = absurd (cc)

  -- A body that returned a result ran its first step and its rest without an error.
  pub bind_ok :
      (m : Exec S E A) (f : A → Exec S E B) (s : S) {b : B} {s' : S}
      → (m >>= f) s ≡ (ok b, s')
      → (a : A) × (t : S) × (m s ≡ (ok a, t)) × (f a t ≡ (ok b, s'))
  bind_ok m f s h = resume_ok f (m s) h

module _ {S E : Type 0} where
  pub throw_if_ok :
      (c : Bool) (e : E) (s : S) {u : Unit {0}} {s' : S}
      → throw_if c e s ≡ (ok u, s')
      → (c ≡ false) × (s' ≡ s)
  throw_if_ok true e s h = absurd (cc)
  throw_if_ok false e s h = ground arith

module _ {S E A B : Type 0} where
  pure_of :
      (e : E) (v : B) (o : Option (A × S)) (s : S) {b : B} {s' : S}
      → resume
          (λ (_ : A) (t : S). (ok v, t))
          (elim o as (λ _. Result E A × S) [ none ↦ (err e, s) | some (x, t) ↦ (ok x, t) ])
        ≡ (ok b, s')
      → (a : A) × (o ≡ some (a, s')) × (v ≡ b)
  pure_of e v none s h = absurd (cc)
  pure_of e v (some (x, t)) s h = (x, ground arith, ground arith)

  -- A write followed by a return of `v` went through, and `v` is the result.
  pub attempt_pure_ok :
      (e : E) (v : B) (f : S → Option (A × S)) (s : S) {b : B} {s' : S}
      → (attempt e f >>= λ _. λ t. (ok v, t)) s ≡ (ok b, s')
      → (a : A) × (f s ≡ some (a, s')) × (v ≡ b)
  attempt_pure_ok e v f s h = pure_of e v (f s) s h

module _ {S E A B : Type 0} where
  -- A body that went past a lookup found the value, and ran its rest on the same store.
  pub or_throw_bind :
      (e : E) (o : Option A) (f : A → Exec S E B) (s : S) {b : B} {s' : S}
      → (or_throw e o >>= f) s ≡ (ok b, s')
      → (a : A) × (o ≡ some a) × (f a s ≡ (ok b, s'))
  or_throw_bind e none f s h = absurd (cc)
  or_throw_bind e (some a) f s h = (a, refl, h)

  -- The same for a step that does not change the store.
  pub bind_same :
      (m : Exec S E A) (f : A → Exec S E B) (s : S) {b : B} {s' : S}
      → ((a : A) (t : S) → m s ≡ (ok a, t) → t ≡ s)
      → (m >>= f) s ≡ (ok b, s')
      → (a : A) × (m s ≡ (ok a, s)) × (f a s ≡ (ok b, s'))
  bind_same m f s {b} {s'} same h =
      let (a, t, first, rest) = bind_ok m f s h in
      let e = same a t first in
      (a, subst (λ r. m s ≡ (ok a, r)) e first, subst (λ r. f a r ≡ (ok b, s')) e rest)

module _ {S E B : Type 0} where
  -- A body that went past a guard was not refused by it.
  pub throw_if_bind :
      (c : Bool) (e : E) (f : Unit {0} → Exec S E B) (s : S) {b : B} {s' : S}
      → (throw_if c e >>= f) s ≡ (ok b, s')
      → (c ≡ false) × (f tt s ≡ (ok b, s'))
  throw_if_bind true e f s h = absurd (cc)
  throw_if_bind false e f s h = (refl, h)
