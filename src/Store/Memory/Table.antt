-- ===== src/Store/Memory/Table.antt =====
-- A table in memory: rows under their ids, the latest first.
use project_tracker.Prelude.{
  ◌<◌, String, ◌≡◌, ◌≢◌, inl, inr, refl, sym, ap, ◌∙◌, subst, Bool, true, Option, none, some, List,
  [], ◌∷◌, arith, eq_iff, ◌==◌, if◌then◌else◌, All, Any, some-injective, Bool-cases, Option-cases,
}
use project_tracker.Prelude.Text.{◌<>◌, count, count-<>}

module _ {R : Type 0} (id_of : R → String) where
  abbrev pub find : String → List R → Option R
  find i [] = none
  find i (r ∷ rs) = if i == id_of r then some r else find i rs

  abbrev pub without : String → List R → List R
  without i [] = []
  without i (r ∷ rs) = let rest = without i rs in if i == id_of r then rest else r ∷ rest

  abbrev keep : (R → Bool) → Option R → List R → List R
  keep p none rest = rest
  keep p (some s) rest = if p s then s ∷ rest else rest

  -- The stored row of each id that occurs, if it passes the filter.
  abbrev pub select : (R → Bool) → List R → List R → List R
  select p all [] = []
  select p all (r ∷ rs) = keep p (find (id_of r) all) (select p all rs)

  -- An id that is longer than every id of the table.
  abbrev pub fresh : List R → String
  fresh [] = "x"
  fresh (r ∷ rs) = id_of r <> fresh rs

  pub id-find : (i : String) (rs : List R) (r : R) → find i rs ≡ some r → id_of r ≡ i
  id-find i [] r h = absurd (cc)
  id-find i (s ∷ rs) r h = ground (arith, eq_iff i (id_of s), id-find i rs r)

  Kept : (p : R → Bool) (all : List R) → List R → Type 0
  Kept p all = All (λ r. (p r ≡ true) × (find (id_of r) all ≡ some r))

  keep_sound :
      (p : R → Bool) (all : List R) (i : String) (o : Option R) (rest : List R)
      → find i all ≡ o
      → Kept p all rest
      → Kept p all (keep p o rest)
  unfolding Kept
  keep_sound p all i none rest found h = h
  keep_sound p all i (some s) rest found h = elim (Bool-cases (p s)) [
    | inl passes ↦
        let e : id_of s ≡ i = id-find i all s found in
        subst (λ (b : Bool). Kept p all (if b then s ∷ rest else rest)) (sym passes)
          ((passes, ap (λ j. find j all) e ∙ found), h)
    | inr fails ↦ subst (λ (b : Bool). Kept p all (if b then s ∷ rest else rest)) (sym fails) h
  ]

  select-Kept : (p : R → Bool) (all rs : List R) → Kept p all (select p all rs)
  unfolding Kept
  select-Kept p all [] = tt
  select-Kept p all (r ∷ rs) =
      keep_sound p all (id_of r) (find (id_of r) all) (select p all rs) refl (select-Kept p all rs)

  pub select_sound :
      (p : R → Bool) (all rs : List R)
      → All (λ r. (p r ≡ true) × (find (id_of r) all ≡ some r)) (select p all rs)
  unfolding Kept
  select_sound = select-Kept

  keep_head :
      (p : R → Bool) (o : Option R) (rest : List R) (r : R)
      → o ≡ some r
      → p r ≡ true
      → Any (λ s. s ≡ r) (keep p o rest)
  keep_head p none rest r e t = absurd (cc)
  keep_head p (some s) rest r e t =
      let same : s ≡ r = some-injective s r e in
      let passes : p s ≡ true = ap p same ∙ t in
      subst (λ (b : Bool). Any (λ q. q ≡ r) (if b then s ∷ rest else rest)) (sym passes) (inl same)

  keep_tail :
      (p : R → Bool) (o : Option R) (rest : List R) (r : R)
      → Any (λ s. s ≡ r) rest
      → Any (λ s. s ≡ r) (keep p o rest)
  keep_tail p none rest r h = h
  keep_tail p (some s) rest r h = elim (Bool-cases (p s)) [
    | inl passes ↦ rw (passes, if◌then◌else◌) (inr h)
    | inr fails ↦ rw (fails, if◌then◌else◌) h
  ]

  pub select_complete :
      (p : R → Bool) (all rs : List R) (i : String) (r : R)
      → find i rs ≡ some r
      → find i all ≡ some r
      → p r ≡ true
      → Any (λ s. s ≡ r) (select p all rs)
  select_complete p all [] i r h f t = absurd (cc)
  select_complete p all (s ∷ rs) i r h f t = elim (Bool-cases (i == id_of s)) [
    | inl here ↦
        let e : i ≡ id_of s = (eq_iff i (id_of s)).0 here in
        keep_head p _ (select p all rs) r (ap (λ j. find j all) (sym e) ∙ f) t
    | inr later ↦
        keep_tail p _ (select p all rs) r (select_complete p all rs i r (rw later at h) f t)
  ]

  count-fresh_pos : (rs : List R) → 0 < count (fresh rs)
  count-fresh_pos [] = omega arith
  count-fresh_pos (s ∷ rs) = omega (arith, count-<> (id_of s) (fresh rs), count-fresh_pos rs)

  count-fresh : (i : String) (rs : List R) (r : R) → find i rs ≡ some r → count i < count (fresh rs)
  count-fresh i [] r h = absurd (cc)
  count-fresh i (s ∷ rs) r h = elim (Bool-cases (i == id_of s)) [
    | inl here ↦
        let e : count i ≡ count (id_of s) = ap count ((eq_iff i (id_of s)).0 here) in
        omega (arith, e, count-<> (id_of s) (fresh rs), count-fresh_pos rs)
    | inr later ↦ omega (arith, count-<> (id_of s) (fresh rs), count-fresh i rs r (rw later at h))
  ]

  pub find-fresh : (rs : List R) → find (fresh rs) rs ≡ none
  find-fresh rs = elim (Option-cases (find (fresh rs) rs)) [
    | inl free ↦ free
    | inr (r, taken) ↦ absurd (omega (arith, count-fresh (fresh rs) rs r taken))
  ]

  pub fresh-nonempty : (rs : List R) → fresh rs ≢ ""
  fresh-nonempty rs e =
      let z : count (fresh rs) ≡ 0 = ap count e in omega (arith, z, count-fresh_pos rs)

  pub find-without_ne : (i j : String) (rs : List R) → i ≢ j → find i (without j rs) ≡ find i rs
  find-without_ne i j [] ne = refl
  find-without_ne i j (r ∷ rs) ne =
      ground (arith, find-without_ne i j rs ne, eq_iff i (id_of r), eq_iff j (id_of r))
