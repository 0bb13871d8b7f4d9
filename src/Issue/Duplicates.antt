-- ===== src/Issue/Duplicates.antt =====
-- `validateDCSerials`: the conflicts with other challans that it can report.
use project_tracker.Prelude.{
  String, ◌≡◌, ◌≢◌, refl, sym, subst, Bool, if◌then◌else◌, true, false, ◌||◌, none, some, inl, inr,
  Bool-cases, arith, List, [], ◌∷◌, ◌++◌, All, contains, lookup, ◌==◌, eq_iff, eq_refl, length,
}
use project_tracker.Prelude.Int.{ℤ, pos}
use project_tracker.Prelude.Exec.{Result, ok, err}
use project_tracker.Prelude.Text.Space.{trim_space}
use project_tracker.Store.Schema.{DcLineItem, SerialNumber, dc_line_items, serial_numbers}
use project_tracker.Store.App.{App}
use project_tracker.Services.{Error, serial_in_use, duplicate_serials, wrong_serial_count}
use project_tracker.Store.Status.{or_empty}
use project_tracker.Serials.{
  Scan, scan, scan_one, conflicts, validate_serials, is_empty, SerialConflict,
  SerialValidationResult,
}
use project_tracker.Issue.Validate.{
  serials_of, this_dc_serials, existing_serials, check_line_item, check_line_items, validate_items,
  validate_dc_serials, serial_verdict,
}

All-snoc :
    (P : String → Type 0) (xs : List String) (x : String) → All P xs → P x → All P (xs ++ x ∷ [])
All-snoc P [] x a p = (p, tt)
All-snoc P (y ∷ xs) x (q, a) p = (q, All-snoc P xs x a p)

-- The serials that a scan keeps are among those it is given.
scan_one-Known :
    (mine : List String) (s : String) (acc : Scan)
    → contains s mine ≡ true
    → All (λ t. contains t mine ≡ true) acc.seen
    → All (λ t. contains t mine ≡ true) (scan_one s acc).seen
unfolding scan_one
scan_one-Known mine s acc known a = elim (Bool-cases (s == "")) [
  | inl blank ↦ rw blank a
  | inr some_text ↦ elim (Bool-cases (contains s acc.seen)) [
    | inl again ↦ rw (some_text, again) a
    | inr new ↦ rw (some_text, new) (All-snoc (λ t. contains t mine ≡ true) acc.seen s a known)
  ]
]

scan-Known :
    (mine input : List String) (acc : Scan)
    → All (λ s. (trim_space s ≡ s) × (contains s mine ≡ true)) input
    → All (λ t. contains t mine ≡ true) acc.seen
    → All (λ t. contains t mine ≡ true) (scan input acc).seen
unfolding scan
scan-Known mine [] acc a seen = seen
scan-Known mine (s ∷ input) acc ((trimmed, known), a) seen = scan-Known mine input _ a (
    scan_one-Known mine (trim_space s) acc (subst (λ t. contains t mine ≡ true) (sym trimmed) known)
      seen)

-- A map without the serials has no conflict with them.
conflicts-none :
    (mine : List String) (existing : List (String × String)) (cleaned : List String)
    → ((s : String) → contains s mine ≡ true → lookup s existing ≡ none)
    → All (λ t. contains t mine ≡ true) cleaned
    → conflicts existing cleaned ≡ []
unfolding conflicts
conflicts-none mine existing [] absent a = refl
conflicts-none mine existing (s ∷ cleaned) absent (known, a) =
    rw (absent s known, conflicts) (conflicts-none mine existing cleaned absent a)

-- A verdict without conflicts reports no serial in use.
verdict_of :
    (v d : Bool) (repeated : List String) (cs : List SerialConflict) (s n : String)
    → cs ≡ []
    → (if v
        then ok tt
        else if d
        then elim cs as (λ _. Result Error (Unit {0})) [
          | [] ↦ ok tt
          | conflict ∷ rest ↦ err (serial_in_use conflict.serial conflict.existing_dc)
        ]
        else err (duplicate_serials repeated))
      ≢ err (serial_in_use s n)
verdict_of true d repeated cs s n clean = λ e. cc
verdict_of false false repeated cs s n clean = λ e. cc
verdict_of false true repeated [] s n clean = λ e. cc
verdict_of false true repeated (c ∷ cs) s n clean = absurd (cc)

verdict-other :
    (app : App) (r : SerialValidationResult) (s n : String)
    → r.duplicates_in_db ≡ []
    → serial_verdict app r ≢ err (serial_in_use s n)
unfolding serial_verdict
verdict-other app r s n clean =
    verdict_of r.valid (is_empty r.duplicates_in_input) r.duplicates_in_input r.duplicates_in_db s n
      clean

validated_conflicts :
    (mine : List String) (existing : List (String × String)) (input : List String) (qty : ℤ)
    → ((t : String) → contains t mine ≡ true → lookup t existing ≡ none)
    → All (λ t. (trim_space t ≡ t) × (contains t mine ≡ true)) input
    → (validate_serials input qty existing).duplicates_in_db ≡ []
unfolding validate_serials
validated_conflicts mine existing input qty absent a =
    conflicts-none mine existing (scan input (record { seen = []; repeated = [] })).seen absent
      (scan-Known mine input (record { seen = []; repeated = [] }) a tt)

distinct :
    (s t : String) (mine : List String)
    → contains s mine ≡ true
    → contains t mine ≡ false
    → (s == t) ≡ false
distinct s t mine known foreign = elim (Bool-cases (s == t)) [
  | inl same ↦
      absurd (cc (subst (λ x. contains x mine ≡ true) ((eq_iff s t).0 same) known, foreign))
  | inr other ↦ other
]

if-other :
    (c : Bool) (r q : Result Error (Unit {0})) (s n : String)
    → r ≢ err (serial_in_use s n)
    → q ≢ err (serial_in_use s n)
    → (if c then r else q) ≢ err (serial_in_use s n)
if-other true r q s n f g = f
if-other false r q s n f g = g

in_turn :
    (r q : Result Error (Unit {0})) (e : Error)
    → r ≢ err e
    → q ≢ err e
    → (elim r as (λ _. Result Error (Unit {0})) [ ok u ↦ q | err x ↦ err x ]) ≢ err e
in_turn (ok u) q e f g = g
in_turn (err x) q e f g = f

All-split : (P : String → Type 0) (xs ys : List String) → All P (xs ++ ys) → All P xs × All P ys
All-split P [] ys a = (tt, a)
All-split P (x ∷ xs) ys (p, a) = let (b, c) = All-split P xs ys a in ((p, b), c)

or_right : {b : Bool} (a : Bool) → b ≡ true → (a || b) ≡ true
or_right a h = ground arith

All-known :
    (mine xs : List String)
    → All (λ t. trim_space t ≡ t) xs
    → ((t : String) → contains t xs ≡ true → contains t mine ≡ true)
    → All (λ t. (trim_space t ≡ t) × (contains t mine ≡ true)) xs
All-known mine [] a f = tt
All-known mine (x ∷ xs) (p, a) f =
    ((p, f x (rw (eq_refl x))), All-known mine xs a (λ t here. f t (or_right (t == x) here)))

module _ (app : App) where
  open app use {Db, find_record_by_id, find_records_by_filter}

  existing_serials-none :
      (mine : List String) (all : List SerialNumber) (db : Db) (acc : List (String × String))
      (s : String)
      → contains s mine ≡ true
      → lookup s acc ≡ none
      → lookup s (existing_serials app mine all db acc) ≡ none
  unfolding existing_serials
  existing_serials-none mine [] db acc s known absent = absent
  existing_serials-none mine (sr ∷ all) db acc s known absent =
      existing_serials-none mine all db _ s known
        (elim (Bool-cases (contains sr.serial_number mine)) [
          | inl own ↦ rw own absent
          | inr foreign ↦ rw foreign (rw (distinct s sr.serial_number mine known foreign) absent)
        ])

  check_line_item-other :
      (mine : List String) (existing : List (String × String)) (li : DcLineItem) (db : Db)
      (s n : String)
      → ((t : String) → contains t mine ≡ true → lookup t existing ≡ none)
      → All (λ t. (trim_space t ≡ t) × (contains t mine ≡ true)) (serials_of app li db)
      → check_line_item app existing li db ≢ err (serial_in_use s n)
  unfolding check_line_item
  check_line_item-other mine existing li db s n absent a =
      if-other _ (err (wrong_serial_count li.quantity (length (serials_of app li db)))) _ s n
        (λ e. cc)
        (if-other _ (ok tt) _ s n (λ e. cc)
          (verdict-other app
            (validate_serials (serials_of app li db) (pos (length (serials_of app li db))) existing)
            s n (validated_conflicts mine existing (serials_of app li db) _ absent a)))

  check_line_items-other :
      (mine : List String) (existing : List (String × String)) (items : List DcLineItem) (db : Db)
      (s n : String)
      → ((t : String) → contains t mine ≡ true → lookup t existing ≡ none)
      → All (λ t. (trim_space t ≡ t) × (contains t mine ≡ true)) (this_dc_serials app items db)
      → check_line_items app existing items db ≢ err (serial_in_use s n)
  unfolding check_line_items this_dc_serials
  check_line_items-other mine existing [] db s n absent a = λ e. cc
  check_line_items-other mine existing (li ∷ items) db s n absent a =
      let (first, rest) = All-split _ (serials_of app li db) (this_dc_serials app items db) a in
      in_turn (check_line_item app existing li db) _ (serial_in_use s n)
        (check_line_item-other mine existing li db s n absent first)
        (check_line_items-other mine existing items db s n absent rest)

  validate_items-other :
      (project_id : String) (items : List DcLineItem) (db : Db) (s n : String)
      → All (λ t. trim_space t ≡ t) (this_dc_serials app items db)
      → validate_items app project_id items db ≢ err (serial_in_use s n)
  unfolding validate_items
  validate_items-other project_id items db s n trimmed =
      let mine = this_dc_serials app items db in
      check_line_items-other mine _ items db s n
        (λ t known.
          existing_serials-none mine
            (or_empty
              (find_records_by_filter serial_numbers (λ sr. sr.project == project_id) "" 0 db))
            db [] t known refl)
        (All-known mine mine trimmed (λ t here. here))

  -- If the challan's stored serials carry no white space at their ends, the validation never
  -- reports a serial as used by another challan, whatever serials the other challans have.
  pub validate_dc_serials-other :
      (dc_id project_id : String) (db : Db) (items : List DcLineItem)
      → find_records_by_filter dc_line_items (λ li. li.dc == dc_id) "line_order" 0 db ≡ some items
      → All (λ t. trim_space t ≡ t) (this_dc_serials app items db)
      → (s n : String) → validate_dc_serials app dc_id project_id db ≢ err (serial_in_use s n)
  unfolding validate_dc_serials
  validate_dc_serials-other dc_id project_id db items listed trimmed s n =
      rw (listed, validate_dc_serials) (validate_items-other project_id items db s n trimmed)
