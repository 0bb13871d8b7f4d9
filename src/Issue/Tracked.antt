-- ===== src/Issue/Tracked.antt =====
-- What `validateDCSerials` establishes about the line items of a challan.
use project_tracker.Prelude.{
  String, ◌≡◌, refl, subst, Bool, if◌then◌else◌, true, false, not, ◌&&◌, Option, none, some, inl,
  inr, arith, List, [], ◌∷◌, All, Any, length, ◌==◌, eq_iff,
}
use project_tracker.Prelude.Int.{ℤ, pos, ltb_ℤ, eqb_ℤ_iff, ◌<ℤ◌}
use project_tracker.Prelude.Exec.{Result, ok, err}
use project_tracker.Store.Schema.{DcLineItem, dc_line_items}
use project_tracker.Store.App.{App, Laws}
use project_tracker.Services.{Error, fetch_line_items_failed}
use project_tracker.Issue.Validate.{
  serials_of, requires_serials, check_line_item, check_line_items, validate_items,
  validate_dc_serials,
}

module _ (app : App) where
  open app use {Db, find_record_by_id, find_records_by_filter}

  -- A line item with required tracking and a positive quantity has as many serials as its quantity.
  abbrev pub HasSerials : Db → DcLineItem → Type 0
  HasSerials db li =
      requires_serials app li db ≡ true
      → pos 0 <ℤ li.quantity
      → pos (length (serials_of app li db)) ≡ li.quantity

  guard_passes :
      (c : Bool) (e : Error) (rest : Result Error (Unit {0}))
      → (if c then err e else rest) ≡ ok tt
      → (c ≡ false) × (rest ≡ ok tt)
  guard_passes true e rest h = absurd (cc)
  guard_passes false e rest h = (refl, h)

  three_false : (a b c : Bool) → (a && (b && not c)) ≡ false → a ≡ true → b ≡ true → c ≡ true
  three_false a b c h p q = ground arith

  positive_test : (q : ℤ) → pos 0 <ℤ q → ltb_ℤ (pos 0) q ≡ true
  positive_test q h = ground arith

  check_line_item-HasSerials :
      (existing : List (String × String)) (li : DcLineItem) (db : Db)
      → check_line_item app existing li db ≡ ok tt
      → HasSerials db li
  unfolding check_line_item
  check_line_item-HasSerials existing li db h req positive =
      (eqb_ℤ_iff (pos (length (serials_of app li db))) li.quantity).0 (
        three_false (requires_serials app li db) (ltb_ℤ (pos 0) li.quantity) _
          (guard_passes _ _ _ h).0 req (positive_test li.quantity positive))

  pass_both :
      (r : Result Error (Unit {0})) (rest : Result Error (Unit {0}))
      → (elim r as (λ _. Result Error (Unit {0})) [ ok u ↦ rest | err e ↦ err e ]) ≡ ok tt
      → (r ≡ ok tt) × (rest ≡ ok tt)
  pass_both (ok u) rest h = (refl, h)
  pass_both (err e) rest h = absurd (cc)

  check_line_items-HasSerials :
      (existing : List (String × String)) (items : List DcLineItem) (db : Db)
      → check_line_items app existing items db ≡ ok tt
      → All (HasSerials db) items
  unfolding check_line_items
  check_line_items-HasSerials existing [] db h = tt
  check_line_items-HasSerials existing (li ∷ items) db h =
      let (first, rest) = pass_both _ _ h in
      (
        check_line_item-HasSerials existing li db first,
        check_line_items-HasSerials existing items db rest,
      )

  All-Any :
      (P : DcLineItem → Type 0) (xs : List DcLineItem) (x : DcLineItem)
      → All P xs
      → Any (λ y. y ≡ x) xs
      → P x
  All-Any P [] x a m = absurd (m.0)
  All-Any P (y ∷ xs) x (py, a) (inl e) = subst P e py
  All-Any P (y ∷ xs) x (py, a) (inr m) = All-Any P xs x a m

  items_of :
      (dc_id project_id : String) (db : Db) (o : Option (List DcLineItem))
      → (elim o as (λ _. Result Error (Unit {0})) [
        | none ↦ err fetch_line_items_failed
        | some items ↦ validate_items app project_id items db
      ])
        ≡ ok tt
      → (items : List DcLineItem) × (o ≡ some items) × All (HasSerials db) items
  unfolding validate_items
  items_of dc_id project_id db none h = absurd (cc)
  items_of dc_id project_id db (some items) h =
      (items, refl, check_line_items-HasSerials _ items db h)

  -- If the validation passes, every stored line item of the challan whose template requires serial
  -- tracking, and whose quantity is positive, has exactly as many serials as its quantity.
  pub validate_dc_serials-HasSerials :
      (laws : Laws app) (dc_id project_id : String) (db : Db)
      → validate_dc_serials app dc_id project_id db ≡ ok tt
      → (i : String) (li : DcLineItem) → find_record_by_id dc_line_items i db ≡ some li
      → li.dc ≡ dc_id
      → requires_serials app li db ≡ true
      → pos 0 <ℤ li.quantity
      → pos (length (serials_of app li db)) ≡ li.quantity
  unfolding validate_dc_serials
  validate_dc_serials-HasSerials laws dc_id project_id db h i li found e =
      let (items, q, a) = items_of dc_id project_id db _ h in
      All-Any (HasSerials db) items li a (
        laws.query_complete dc_line_items (λ l. l.dc == dc_id) "line_order" db i li q found
          ((eq_iff li.dc dc_id).1 e))
