-- ===== src/Serials/Decides.antt =====
-- `ValidateSerials` of services/serial_validation.go against a description of what it accepts.
use project_tracker.Prelude.{
  String, Bool, true, false, not, ◌==◌, ◌&&◌, ◌||◌, if◌then◌else◌, none, some, List, [], ◌∷◌, ◌++◌,
  contains, lookup, length, All, ◌≡◌, ◌↔◌, inl, inr, refl, sym, ap, ◌∙◌, subst, arith, Bool-cases,
  Option-cases, eq_iff,
}
use mathlib.Core.List.{append-nil, append_assoc}
use project_tracker.Prelude.Text.Space.{trim_space}
use project_tracker.Prelude.Int.{ℤ, pos, eqb_ℤ, eqb_ℤ_iff}
use project_tracker.Serials.{Scan, scan_one, scan, conflicts, is_empty, validate_serials}

-- The serials that count: trimmed, and not blank.
pub cleaned : List String → List String
cleaned [] = []
cleaned (s ∷ input) =
    let rest = cleaned input in if trim_space s == "" then rest else trim_space s ∷ rest

-- No serial occurs twice.
abbrev pub Distinct : List String → Type 0
Distinct [] = Unit
Distinct (x ∷ xs) = (contains x xs ≡ false) × Distinct xs

abbrev Fresh : List String → List String → Type 0
Fresh seen [] = Unit
Fresh seen (x ∷ xs) = (contains x seen ≡ false) × Fresh (seen ++ x ∷ []) xs

contains-append :
    (y : String) (xs ys : List String) → contains y (xs ++ ys) ≡ (contains y xs || contains y ys)
contains-append y [] ys = refl
contains-append y (x ∷ xs) ys = ground (arith, contains-append y xs ys)

Fresh-unseen : (seen xs : List String) → Fresh seen xs → All (λ x. contains x seen ≡ false) xs
Fresh-unseen seen [] h = tt
Fresh-unseen seen (x ∷ xs) (h, k) = (h, weaken xs (Fresh-unseen (seen ++ x ∷ []) xs k))
  where
    weaken :
        (ys : List String)
        → All (λ y. contains y (seen ++ x ∷ []) ≡ false) ys
        → All (λ y. contains y seen ≡ false) ys
    weaken [] a = tt
    weaken (y ∷ ys) (a, b) = (ground (arith, contains-append y seen (x ∷ [])), weaken ys b)

Fresh-Distinct : (seen xs : List String) → Fresh seen xs → Distinct xs
Fresh-Distinct seen [] h = tt
Fresh-Distinct seen (x ∷ xs) (h, k) =
    (absent xs (Fresh-unseen (seen ++ x ∷ []) xs k), Fresh-Distinct (seen ++ x ∷ []) xs k)
  where
    absent :
        (ys : List String)
        → All (λ y. contains y (seen ++ x ∷ []) ≡ false) ys
        → contains x ys ≡ false
    absent [] a = refl
    absent (y ∷ ys) (a, b) =
        ground (arith, contains-append y seen (x ∷ []), absent ys b, eq_iff x y, eq_iff y x)

Fresh-of_Distinct :
    (seen xs : List String) → All (λ x. contains x seen ≡ false) xs → Distinct xs → Fresh seen xs
Fresh-of_Distinct seen [] a d = tt
Fresh-of_Distinct seen (x ∷ xs) (a, b) (c, d) =
    (a, Fresh-of_Distinct (seen ++ x ∷ []) xs (extend xs b c) d)
  where
    extend :
        (ys : List String)
        → All (λ y. contains y seen ≡ false) ys
        → contains x ys ≡ false
        → All (λ y. contains y (seen ++ x ∷ []) ≡ false) ys
    extend [] p q = tt
    extend (y ∷ ys) (p, ps) q = (
      ground (arith, contains-append y seen (x ∷ []), eq_iff x y, eq_iff y x),
      extend ys ps (ground arith),
    )

module _ (t : String) (acc : Scan) where
  scan_one_blank : (t == "") ≡ true → scan_one t acc ≡ acc
  unfolding scan_one
  scan_one_blank h = rw h

  scan_one_seen :
      (t == "") ≡ false
      → contains t acc.seen ≡ true
      → scan_one t acc ≡ record acc { repeated = acc.repeated ++ t ∷ [] }
  unfolding scan_one
  scan_one_seen h k = rw (h, k)

  scan_one_new :
      (t == "") ≡ false
      → contains t acc.seen ≡ false
      → scan_one t acc ≡ record acc { seen = acc.seen ++ t ∷ [] }
  unfolding scan_one
  scan_one_new h k = rw (h, k)

module _ (s : String) (input : List String) where
  cleaned_blank : (trim_space s == "") ≡ true → cleaned (s ∷ input) ≡ cleaned input
  unfolding cleaned
  cleaned_blank h = rw h

  cleaned_kept : (trim_space s == "") ≡ false → cleaned (s ∷ input) ≡ trim_space s ∷ cleaned input
  unfolding cleaned
  cleaned_kept h = rw h

cleaned_nil : cleaned [] ≡ []
unfolding cleaned
cleaned_nil = refl

-- The loop keeps every counted serial if none occurred before.
scan-Fresh :
    (input : List String) (acc : Scan)
    → Fresh acc.seen (cleaned input)
    → scan input acc ≡ record { seen = acc.seen ++ cleaned input; repeated = acc.repeated }
unfolding scan
scan-Fresh [] acc h = rw cleaned_nil (
    ap (λ (l : List String). record { seen = l; repeated = acc.repeated })
      (sym (append-nil acc.seen)))
scan-Fresh (s ∷ input) acc h = elim (Bool-cases (trim_space s == "")) [
  | inl blank ↦
      let e = cleaned_blank s input blank in
      rw (scan_one_blank (trim_space s) acc blank, e)
        (scan-Fresh input acc (subst (Fresh acc.seen) e h))
  | inr kept ↦
      let e = cleaned_kept s input kept in
      let (new, rest) = subst (Fresh acc.seen) e h in
      rw (scan_one_new (trim_space s) acc kept new, e)
        (scan-Fresh input (record acc { seen = acc.seen ++ trim_space s ∷ [] }) rest
          ∙ ap (λ (l : List String). record { seen = l; repeated = acc.repeated })
              (append_assoc acc.seen (trim_space s ∷ []) (cleaned input)))
]

is_empty-snoc : (xs : List String) (x : String) → is_empty (xs ++ x ∷ []) ≡ false
unfolding is_empty
is_empty-snoc [] x = refl
is_empty-snoc (y ∷ xs) x = refl

-- The loop ends with no repeated serial only if none occurred before.
scan_clean :
    (input : List String) (acc : Scan)
    → is_empty (scan input acc).repeated ≡ true
    → (is_empty acc.repeated ≡ true) × Fresh acc.seen (cleaned input)
unfolding scan
scan_clean [] acc h = (h, rw cleaned_nil tt)
scan_clean (s ∷ input) acc h = elim (Bool-cases (trim_space s == "")) [
  | inl blank ↦
      let e = cleaned_blank s input blank in
      rw e (scan_clean input acc (rw (← scan_one_blank (trim_space s) acc blank) h))
  | inr kept ↦
      let e = cleaned_kept s input kept in
      elim (Bool-cases (contains (trim_space s) acc.seen)) [
        | inl again ↦
            let (k, rest) =
              scan_clean input (record acc { repeated = acc.repeated ++ trim_space s ∷ [] })
                (subst (λ q. is_empty (scan input q).repeated ≡ true)
                  (scan_one_seen (trim_space s) acc kept again) h) in
            absurd (cc (is_empty-snoc acc.repeated (trim_space s)))
        | inr new ↦
            let (k, rest) =
              scan_clean input (record acc { seen = acc.seen ++ trim_space s ∷ [] })
                (subst (λ q. is_empty (scan input q).repeated ≡ true)
                  (scan_one_new (trim_space s) acc kept new) h) in
            rw e (k, (new, rest))
      ]
]

module _ (existing : List (String × String)) (x : String) (xs : List String) where
  conflicts_absent : lookup x existing ≡ none → conflicts existing (x ∷ xs) ≡ conflicts existing xs
  unfolding conflicts
  conflicts_absent h = rw (h, conflicts)

  conflicts_found :
      (d : String) → lookup x existing ≡ some d → is_empty (conflicts existing (x ∷ xs)) ≡ false
  unfolding conflicts is_empty
  conflicts_found d h = rw (h, is_empty)

conflicts-empty_iff :
    (existing : List (String × String)) (xs : List String)
    → (is_empty (conflicts existing xs) ≡ true) ↔ All (λ s. lookup s existing ≡ none) xs
unfolding conflicts is_empty
conflicts-empty_iff existing [] = ((λ h. tt), λ h. refl)
conflicts-empty_iff existing (x ∷ xs) =
    let ih = conflicts-empty_iff existing xs in
    elim (Option-cases (lookup x existing)) [
      | inl absent ↦
          let e = conflicts_absent existing x xs absent in
          (λ h. (absent, ih.0 (ap is_empty (sym e) ∙ h)), λ h. ap is_empty e ∙ ih.1 h.1)
      | inr (d, found) ↦
          (λ h. absurd (cc (conflicts_found existing x xs d found)), λ h. absurd (cc (h.0)))
    ]

abbrev start : Scan
start = record { seen = []; repeated = [] }

and_three : (a b c : Bool) → (a && (b && not (not c))) ≡ true → (a ≡ true) × (b ≡ true) × (c ≡ true)
and_three a b c h = ground arith

all_three : (a b c : Bool) → a ≡ true → b ≡ true → c ≡ true → (a && (b && not (not c))) ≡ true
all_three a b c h k l = ground arith

unseen : (xs : List String) → All (λ x. contains x [] ≡ false) xs
unseen [] = tt
unseen (x ∷ xs) = (refl, unseen xs)

-- A list of serials is valid exactly when the serials that count are distinct, none of them is in
-- another challan, and there are as many as expected.
pub validate_serials-valid_iff :
    (input : List String) (expected : ℤ) (existing : List (String × String))
    → ((validate_serials input expected existing).valid ≡ true) ↔ (
        Distinct (cleaned input)
        × All (λ s. lookup s existing ≡ none) (cleaned input)
        × (pos (length (cleaned input)) ≡ expected))
unfolding validate_serials
validate_serials-valid_iff input expected existing = (
  λ h.
      let (a, b, c) = and_three _ _ _ h in
      let (_, fresh) = scan_clean input start a in
      let e = scan-Fresh input start fresh in
      (
        Fresh-Distinct [] (cleaned input) fresh,
        (conflicts-empty_iff existing (cleaned input)).0
            (subst (λ (q : Scan). is_empty (conflicts existing q.seen) ≡ true) e b),
        (eqb_ℤ_iff (pos (length (cleaned input))) expected).0
            (subst (λ (q : Scan). eqb_ℤ (pos (length q.seen)) expected ≡ true) e c),
      ),
  λ (d, k, n).
      let fresh = Fresh-of_Distinct [] (cleaned input) (unseen (cleaned input)) d in
      let e = scan-Fresh input start fresh in
      all_three _ _ _ (ap (λ (q : Scan). is_empty q.repeated) e)
        (subst (λ (q : Scan). is_empty (conflicts existing q.seen) ≡ true) (sym e)
          ((conflicts-empty_iff existing (cleaned input)).1 k))
        (subst (λ (q : Scan). eqb_ℤ (pos (length q.seen)) expected ≡ true) (sym e)
          ((eqb_ℤ_iff (pos (length (cleaned input))) expected).1 n)),
)
