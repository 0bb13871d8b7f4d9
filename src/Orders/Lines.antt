-- ===== src/Orders/Lines.antt =====
-- handlers/po_line_items.go, and `buildPOEditData` of handlers/po_edit.go, which every handler of
-- line items calls at its end.
use project_tracker.Prelude.{
  String, ◌==◌, ◌||◌, not, Bool, if◌then◌else◌, Option, none, some, List, [], ◌∷◌, map,
}
use project_tracker.Prelude.Int.{ℤ, pos, ◌+ℤ◌}
use project_tracker.Prelude.Exec.{Exec, ◌>>=◌, ◌>>◌, pure, gets, or_throw, throw_if, attempt}
use project_tracker.Store.Schema.{
  Float64, PurchaseOrder, PoLineItem, MainBoqItem, SubItem, SubSubItem, purchase_orders,
  po_line_items, vendors, main_boq_items, sub_items, sub_sub_items,
}
use project_tracker.Store.App.{App}
use project_tracker.Store.Status.{or_empty}
use project_tracker.Services.{
  Error, invalid_form, missing_id, record_not_found, save_failed, collection_not_found, words_panic,
  unknown_source, source_not_found, foreign_order,
}
use project_tracker.Shipment.Form.{Form}
use project_tracker.Words.{amount_to_words}
use project_tracker.Pricing.{PoLineItemCalc, PoTotals, calc_po_line_item, calc_po_totals}
use project_tracker.Orders.{trimmed}

-- What `buildPOEditData` computes: the order, its vendor's name, its lines with their amounts, and
-- the totals, also in words. A panic of AmountToWords is an
-- error. The lists of addresses and the other texts of amounts are left out.
pub record PoEditData : Type 0 where
  pub order : PurchaseOrder
  pub vendor_name : String
  pub lines : List PoLineItem
  pub line_items : List PoLineItemCalc
  pub totals : PoTotals
  pub amount_in_words : String

-- What a line takes over from an item of a bill of quantities.
pub record SourceItem : Type 0 where
  pub description : String
  pub hsn_code : String
  pub uom : String
  pub gst_percent : Float64
  pub qty : Float64
  pub rate : Float64

module _ (app : App) where
  open app use {
    Db, has_collection, find_record_by_id, find_records_by_filter, save, delete, parse_float,
    float_zero, float_lt, float_eq,
  }

  abbrev pub name_of_vendor : String → Db → String
  name_of_vendor vendor_id db =
      if vendor_id == ""
      then ""
      else elim (find_record_by_id vendors vendor_id db) [ none ↦ "" | some v ↦ v.name ]

  abbrev pub line_calc : PoLineItem → PoLineItemCalc
  line_calc item = calc_po_line_item app item.rate item.qty item.gst_percent

  -- `buildPOEditData`
  unfoldable pub build_po_edit_data : (project_id id : String) → Exec Db Error PoEditData
  build_po_edit_data project_id id = do
    found ← gets (find_record_by_id purchase_orders id)
    po ← or_throw (record_not_found purchase_orders) found
    throw_if (not (po.project == project_id)) foreign_order
    vendor_name ← gets (name_of_vendor po.vendor)
    items ← gets (λ db.
        or_empty
          (find_records_by_filter po_line_items (λ r. r.purchase_order == id) "sort_order" 0 db))
    let totals = calc_po_totals app (map line_calc items)
    words ← or_throw words_panic (amount_to_words app totals.grand_total)
    pure (record {
      order = po;
      vendor_name = vendor_name;
      lines = items;
      line_items = map line_calc items;
      totals = totals;
      amount_in_words = words;
    })

  -- `getNextSortOrder`
  unfoldable pub get_next_sort_order : String → Db → ℤ
  get_next_sort_order po_id db =
      elim (find_records_by_filter po_line_items (λ r. r.purchase_order == po_id) "-sort_order" 1
        db) [ none ↦ pos 1 | some [] ↦ pos 1 | some (r ∷ rs) ↦ r.sort_order +ℤ pos 1 ]

  -- A number of the form, or zero.
  abbrev pub number_or_zero : String → Float64
  number_or_zero s = elim (parse_float s) [ none ↦ float_zero | some x ↦ x ]

  -- The messages of `HandlePOAddLineItem`: whether there is any.
  unfoldable pub line_refused : Form → Bool
  unfolding trimmed
  line_refused form =
      trimmed form "description" == ""
      || trimmed form "uom" == ""
      || float_lt (number_or_zero (trimmed form "qty")) float_zero
      || float_eq (number_or_zero (trimmed form "qty")) float_zero
      || float_lt (number_or_zero (trimmed form "rate")) float_zero

  -- The new line is stored behind the others.
  unfoldable pub store_line : String → (ℤ → PoLineItem) → Exec Db Error (Unit {0})
  store_line po_id make = do
    next ← gets (get_next_sort_order po_id)
    known ← gets (has_collection po_line_items)
    throw_if (not known) (collection_not_found po_line_items)
    attempt (save_failed po_line_items) (save po_line_items (make next))
    pure tt

  unfoldable pub manual_line : String → Form → ℤ → PoLineItem
  unfolding trimmed
  manual_line po_id form next = record {
    id = "";
    purchase_order = po_id;
    sort_order = next;
    description = trimmed form "description";
    hsn_code = trimmed form "hsn_code";
    qty = number_or_zero (trimmed form "qty");
    uom = trimmed form "uom";
    rate = number_or_zero (trimmed form "rate");
    gst_percent = number_or_zero (trimmed form "gst_percent");
    source_item_type = "manual";
    source_item_id = "";
  }

  -- `HandlePOAddLineItem`
  unfoldable pub handle_po_add_line_item :
      (project_id po_id : String) → Form → Exec Db Error PoEditData
  handle_po_add_line_item project_id po_id form = do
    throw_if (line_refused form) invalid_form
    store_line po_id (manual_line po_id form)
    build_po_edit_data project_id po_id

  abbrev main_source : MainBoqItem → SourceItem
  main_source r = record {
    description = r.description;
    hsn_code = r.hsn_code;
    uom = r.uom;
    gst_percent = r.gst_percent;
    qty = r.qty;
    rate = r.unit_price;
  }

  abbrev sub_source : SubItem → SourceItem
  sub_source r = record {
    description = r.description;
    hsn_code = r.hsn_code;
    uom = r.uom;
    gst_percent = r.gst_percent;
    qty = r.qty_per_unit;
    rate = r.unit_price;
  }

  abbrev sub_sub_source : SubSubItem → SourceItem
  sub_sub_source r = record {
    description = r.description;
    hsn_code = r.hsn_code;
    uom = r.uom;
    gst_percent = r.gst_percent;
    qty = r.qty_per_unit;
    rate = r.unit_price;
  }

  -- `app.FindRecordById(collectionName, sourceItemId)` for a known type of source; `none` is an
  -- unknown type.
  unfoldable pub find_source : (source_type source_id : String) → Db → Option (Option SourceItem)
  find_source source_type source_id db =
      if source_type == "main_item"
      then some (elim (find_record_by_id main_boq_items source_id db) [
        | none ↦ none
        | some r ↦ some (main_source r)
      ])
      else if source_type == "sub_item"
      then some (elim (find_record_by_id sub_items source_id db) [
        | none ↦ none
        | some r ↦ some (sub_source r)
      ])
      else if source_type == "sub_sub_item"
      then some (elim (find_record_by_id sub_sub_items source_id db) [
        | none ↦ none
        | some r ↦ some (sub_sub_source r)
      ])
      else none

  unfoldable pub source_line : String → Form → SourceItem → ℤ → PoLineItem
  unfolding trimmed
  source_line po_id form src next = record {
    id = "";
    purchase_order = po_id;
    sort_order = next;
    description = src.description;
    hsn_code = src.hsn_code;
    qty = src.qty;
    uom = src.uom;
    rate = src.rate;
    gst_percent = src.gst_percent;
    source_item_type = trimmed form "source_item_type";
    source_item_id = trimmed form "source_item_id";
  }

  -- `HandlePOAddLineItemFromBOQ`
  unfoldable pub handle_po_add_line_item_from_boq :
      (project_id po_id : String) → Form → Exec Db Error PoEditData
  unfolding trimmed
  handle_po_add_line_item_from_boq project_id po_id form = do
    throw_if (trimmed form "source_item_type" == "" || trimmed form "source_item_id" == "")
        missing_id
    known ← gets (find_source (trimmed form "source_item_type") (trimmed form "source_item_id"))
    found ← or_throw unknown_source known
    src ← or_throw source_not_found found
    store_line po_id (source_line po_id form src)
    build_po_edit_data project_id po_id
