-- ===== src/Boqs/Update.antt =====
-- handlers/boq_edit.go: HandleBOQUpdate. All items of the bill are changed by one form and saved,
-- the lowest level first, with the sums of the prices carried along. An error of a save or of a
-- query for the items below is dropped. The page that is built at the end is left out but for its
-- errors.
use project_tracker.Prelude.{◌==◌, if◌then◌else◌, none, some, List, [], ◌∷◌, String, not}
use project_tracker.Prelude.Text.{◌<>◌}
use project_tracker.Prelude.Exec.{Exec, ◌>>=◌, ◌>>◌, pure, gets, or_throw, throw_if}
use project_tracker.Store.Schema.{
  Float64, MainBoqItem, SubItem, SubSubItem, Collection, main_boq_items, sub_items, sub_sub_items,
  boqs, Row,
}
use project_tracker.Store.App.{App}
use project_tracker.Store.Status.{or_empty}
use project_tracker.Services.{
  Error, missing_id, collection_not_found, query_failed, record_not_found,
}
use project_tracker.Shipment.Form.{Form, get_val}

-- `if s := FormValue(...); s != "" { Set(s) }`
abbrev pub text_or : (old s : String) → String
text_or old s = if s == "" then old else s

module _ (app : App) where
  open app use {
    Db, has_collection, find_record_by_id, find_records_by_filter, save, parse_float, float_mul,
    float_add, float_zero,
  }

  -- The same for a number: a text that is no number is skipped, the empty one too.
  abbrev pub number_or : (old : Float64) (s : String) → Float64
  number_or old s = if s == "" then old else elim (parse_float s) [ none ↦ old | some x ↦ x ]

  -- `app.Save(r)`, the error of which is logged.
  abbrev pub saved : (c : Collection) → Row c → Db → Db
  saved c r db = elim (save c r db) [ none ↦ db | some (r', db') ↦ db' ]

  -- The fields of a main item that the form sets.
  unfoldable pub edit_main_item : Form → MainBoqItem → MainBoqItem
  edit_main_item form mi =
      let key = "main_item_" <> mi.id <> "_" in
      record mi {
        description = text_or mi.description (get_val form (key <> "description"));
        qty = number_or mi.qty (get_val form (key <> "qty"));
        uom = text_or mi.uom (get_val form (key <> "uom"));
        quoted_price = number_or mi.quoted_price (get_val form (key <> "quoted_price"));
        hsn_code = get_val form (key <> "hsn_code");
        gst_percent = number_or mi.gst_percent (get_val form (key <> "gst_percent"));
      }

  unfoldable pub edit_sub_item : Form → SubItem → SubItem
  edit_sub_item form si =
      let key = "sub_item_" <> si.id <> "_" in
      record si {
        type_of = text_or si.type_of (get_val form (key <> "type"));
        description = text_or si.description (get_val form (key <> "description"));
        qty_per_unit = number_or si.qty_per_unit (get_val form (key <> "qty_per_unit"));
        uom = text_or si.uom (get_val form (key <> "uom"));
        unit_price = number_or si.unit_price (get_val form (key <> "unit_price"));
        hsn_code = get_val form (key <> "hsn_code");
        gst_percent = number_or si.gst_percent (get_val form (key <> "gst_percent"));
      }

  unfoldable pub edit_sub_sub_item : Form → SubSubItem → SubSubItem
  edit_sub_sub_item form ssi =
      let key = "sub_sub_item_" <> ssi.id <> "_" in
      record ssi {
        type_of = text_or ssi.type_of (get_val form (key <> "type"));
        description = text_or ssi.description (get_val form (key <> "description"));
        qty_per_unit = number_or ssi.qty_per_unit (get_val form (key <> "qty_per_unit"));
        uom = text_or ssi.uom (get_val form (key <> "uom"));
        unit_price = number_or ssi.unit_price (get_val form (key <> "unit_price"));
        hsn_code = get_val form (key <> "hsn_code");
        gst_percent = number_or ssi.gst_percent (get_val form (key <> "gst_percent"));
      }

  -- A sub-sub-item as it is saved, with its price.
  abbrev pub priced_sub_sub : Form → SubSubItem → SubSubItem
  priced_sub_sub form ssi =
      let edited = edit_sub_sub_item form ssi in
      record edited { budgeted_price = float_mul edited.qty_per_unit edited.unit_price }

  -- The loop over the sub-sub-items of a sub-item: `ssTotal` and the store.
  unfoldable pub update_sub_sub_items : Form → List SubSubItem → Float64 → Db → Float64 × Db
  update_sub_sub_items form [] ss_total db = (ss_total, db)
  update_sub_sub_items form (ssi ∷ ssis) ss_total db =
      let priced = priced_sub_sub form ssi in
      update_sub_sub_items form ssis (float_add ss_total priced.budgeted_price)
        (saved sub_sub_items priced db)

  -- `if len(subSubItems) > 0`
  abbrev pub with_sub_price : List SubSubItem → Float64 → SubItem → SubItem
  with_sub_price [] ss_total si = record si {
    budgeted_price = float_mul si.qty_per_unit si.unit_price;
  }
  with_sub_price (ssi ∷ ssis) ss_total si = record si { budgeted_price = ss_total }

  abbrev pub sub_sub_items_of : SubItem → Db → List SubSubItem
  sub_sub_items_of si db =
      or_empty (find_records_by_filter sub_sub_items (λ r. r.sub_item == si.id) "sort_order" 0 db)

  -- A round of the loop over the sub-items: the item as it is saved, and the store.
  unfoldable pub update_sub_item : Form → SubItem → Db → SubItem × Db
  unfolding update_sub_sub_items
  update_sub_item form si db =
      let ssis = sub_sub_items_of si db in
      let (ss_total, db') = update_sub_sub_items form ssis float_zero db in
      let priced = with_sub_price ssis ss_total (edit_sub_item form si) in
      (priced, saved sub_items priced db')

  -- The loop over the sub-items of a main item: `subBudgetTotal` and the store.
  unfoldable pub update_sub_items : Form → List SubItem → Float64 → Db → Float64 × Db
  unfolding update_sub_item
  update_sub_items form [] sub_budget_total db = (sub_budget_total, db)
  update_sub_items form (si ∷ sis) sub_budget_total db =
      let (priced, db') = update_sub_item form si db in
      update_sub_items form sis (float_add sub_budget_total priced.budgeted_price) db'

  -- `if len(subItems) > 0`
  abbrev pub with_main_price : List SubItem → Float64 → MainBoqItem → MainBoqItem
  with_main_price [] total mi = mi
  with_main_price (si ∷ sis) total mi = record mi { budgeted_price = float_mul total mi.qty }

  abbrev pub sub_items_of : MainBoqItem → Db → List SubItem
  sub_items_of mi db =
      or_empty (find_records_by_filter sub_items (λ r. r.main_item == mi.id) "sort_order" 0 db)

  -- A round of the loop over the main items: the item as it is saved, and the store.
  unfoldable pub update_main_item : Form → MainBoqItem → Db → MainBoqItem × Db
  unfolding update_sub_items
  update_main_item form mi db =
      let sis = sub_items_of mi db in
      let (total, db') = update_sub_items form sis float_zero db in
      let priced = with_main_price sis total (edit_main_item form mi) in
      (priced, saved main_boq_items priced db')

  unfoldable pub update_main_items : Form → List MainBoqItem → Db → Db
  unfolding update_main_item
  update_main_items form [] db = db
  update_main_items form (mi ∷ mis) db =
      update_main_items form mis ((update_main_item form mi db).1)

  abbrev pub update_all : Form → List MainBoqItem → Exec Db Error (Unit {0})
  update_all form mis db = pure tt (update_main_items form mis db)

  -- `HandleBOQUpdate`
  unfoldable pub handle_boq_update : (boq_id : String) → Form → Exec Db Error (Unit {0})
  handle_boq_update boq_id form = do
    throw_if (boq_id == "") missing_id
    mains_known ← gets (has_collection main_boq_items)
    throw_if (not mains_known) (collection_not_found main_boq_items)
    subs_known ← gets (has_collection sub_items)
    throw_if (not subs_known) (collection_not_found sub_items)
    sub_subs_known ← gets (has_collection sub_sub_items)
    throw_if (not sub_subs_known) (collection_not_found sub_sub_items)
    found ← gets (find_records_by_filter main_boq_items (λ r. r.boq == boq_id) "sort_order" 0)
    mis ← or_throw (query_failed main_boq_items) found
    update_all form mis
    again ← gets (find_record_by_id boqs boq_id)
    or_throw (record_not_found boqs) again
    pure tt
