-- ===== src/Issue/Validate.antt =====
-- `validateDCSerials` of services/dc_issue.go. It only reads the store. The map of the serials
-- that other challans use is an association list, the latest write first.
use project_tracker.Prelude.{
  String, Bool, false, not, ◌==◌, ◌&&◌, if◌then◌else◌, Option, none, some, List, [], ◌∷◌, ◌++◌, map,
  contains, length,
}
use project_tracker.Prelude.Int.{pos, ltb_ℤ, eqb_ℤ}
use project_tracker.Prelude.Exec.{Result, ok, err}
use project_tracker.Store.Schema.{
  DcLineItem, SerialNumber, DeliveryChallan, dc_line_items, serial_numbers, delivery_challans,
  dc_template_items,
}
use project_tracker.Store.App.{App}
use project_tracker.Store.Status.{is_required, or_empty}
use project_tracker.Services.{
  Error, fetch_line_items_failed, wrong_serial_count, duplicate_serials, serial_in_use,
}
use project_tracker.Serials.{SerialValidationResult, validate_serials, is_empty}

module _ (app : App) where
  open app use {Db, find_record_by_id, find_records_by_filter}

  -- The serial numbers stored under a line item.
  unfoldable pub serials_of : DcLineItem → Db → List String
  serials_of li db =
      map (λ (sr : SerialNumber). sr.serial_number)
        (or_empty (find_records_by_filter serial_numbers (λ sr. sr.line_item == li.id) "" 0 db))

  -- First pass: the serials of this challan.
  unfoldable pub this_dc_serials : List DcLineItem → Db → List String
  this_dc_serials [] db = []
  this_dc_serials (li ∷ items) db = serials_of li db ++ this_dc_serials items db

  number_of_challan : Option DeliveryChallan → String
  number_of_challan none = "unknown"
  number_of_challan (some other) = other.dc_number

  -- The number of the challan that a serial belongs to.
  owner : Option DcLineItem → Db → String
  owner none db = "unknown"
  owner (some li) db = number_of_challan (find_record_by_id delivery_challans li.dc db)

  -- The serials of the project that are not this challan's, each with its challan's number.
  unfoldable pub existing_serials :
      List String → List SerialNumber → Db → List (String × String) → List (String × String)
  unfolding owner number_of_challan
  existing_serials mine [] db acc = acc
  existing_serials mine (sr ∷ all) db acc = existing_serials mine all db (
      if contains sr.serial_number mine
      then acc
      else (sr.serial_number, owner (find_record_by_id dc_line_items sr.line_item db) db) ∷ acc)

  -- The tracking that the template item of the same source asks for.
  unfoldable pub requires_serials : DcLineItem → Db → Bool
  requires_serials li db =
      elim (or_empty (
        find_records_by_filter dc_template_items
          (λ t. t.source_item_type == li.source_item_type && t.source_item_id == li.source_item_id)
          "" 1 db)) [ [] ↦ false | t ∷ rest ↦ is_required t.serial_tracking ]

  -- What the verdict on a line item's serials makes of the challan: a count mismatch alone passes.
  unfoldable pub serial_verdict : SerialValidationResult → Result Error (Unit {0})
  serial_verdict r =
      if r.valid
      then ok tt
      else if is_empty r.duplicates_in_input
      then elim (r.duplicates_in_db) [
        | [] ↦ ok tt
        | conflict ∷ rest ↦ err (serial_in_use conflict.serial conflict.existing_dc)
      ]
      else err (duplicate_serials r.duplicates_in_input)

  -- One round of the validation loop.
  unfoldable pub check_line_item :
      List (String × String) → DcLineItem → Db → Result Error (Unit {0})
  unfolding serial_verdict is_empty
  check_line_item existing li db =
      let serials = serials_of li db in
      let count = pos (length serials) in
      if requires_serials li db && (ltb_ℤ (pos 0) li.quantity && not (eqb_ℤ count li.quantity))
      then err (wrong_serial_count li.quantity (length serials))
      else if is_empty serials
      then ok tt
      else serial_verdict (validate_serials serials count existing)

  unfoldable pub check_line_items :
      List (String × String) → List DcLineItem → Db → Result Error (Unit {0})
  check_line_items existing [] db = ok tt
  check_line_items existing (li ∷ items) db =
      let rest = check_line_items existing items db in
      elim (check_line_item existing li db) [ ok u ↦ rest | err e ↦ err e ]

  unfoldable pub validate_items : String → List DcLineItem → Db → Result Error (Unit {0})
  unfolding check_line_items existing_serials this_dc_serials
  validate_items project_id items db =
      check_line_items
        (existing_serials (this_dc_serials items db)
          (or_empty
            (find_records_by_filter serial_numbers (λ sr. sr.project == project_id) "" 0 db))
          db [])
        items db

  unfoldable pub validate_dc_serials : String → String → Db → Result Error (Unit {0})
  unfolding validate_items
  validate_dc_serials dc_id project_id db =
      elim (find_records_by_filter dc_line_items (λ li. li.dc == dc_id) "line_order" 0 db) [
        | none ↦ err fetch_line_items_failed
        | some items ↦ validate_items project_id items db
      ]
