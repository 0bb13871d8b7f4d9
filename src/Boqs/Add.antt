-- ===== src/Boqs/Add.antt =====
-- handlers/boq_edit.go: HandleAddMainItem, HandleAddSubItem and HandleAddSubSubItem. Each stores an
-- empty item and then builds the page for editing; of buildBOQEditData the errors are modelled.
use project_tracker.Prelude.{◌==◌, ◌||◌, not, suc, Option, List, length, String}
use project_tracker.Prelude.Int.{ℤ, pos}
use project_tracker.Prelude.Exec.{Exec, ◌>>=◌, ◌>>◌, pure, gets, or_throw, throw_if, attempt}
use project_tracker.Store.Schema.{
  MainBoqItem, SubItem, SubSubItem, Collection, Row, main_boq_items, sub_items, sub_sub_items, boqs,
}
use project_tracker.Store.App.{App}
use project_tracker.Services.{
  Error, missing_id, collection_not_found, record_not_found, save_failed,
}
use project_tracker.Store.Status.{or_empty}

module _ (app : App) where
  open app use {
    Db, has_collection, find_record_by_id, find_records_by_filter, save, float_of_int, float_zero,
  }

  -- The errors of `buildBOQEditData`.
  unfoldable pub build_boq_edit_data : (boq_id : String) → Exec Db Error (Unit {0})
  build_boq_edit_data boq_id = do
    found ← gets (find_record_by_id boqs boq_id)
    or_throw (record_not_found boqs) found
    mains_known ← gets (has_collection main_boq_items)
    throw_if (not mains_known) (collection_not_found main_boq_items)
    subs_known ← gets (has_collection sub_items)
    throw_if (not subs_known) (collection_not_found sub_items)
    sub_subs_known ← gets (has_collection sub_sub_items)
    throw_if (not sub_subs_known) (collection_not_found sub_sub_items)

  -- `len(existing)+1`
  abbrev pub next_position : {R : Type 0} → Option (List R) → ℤ
  next_position existing = pos (suc (length (or_empty existing)))

  abbrev pub new_main_item : (boq_id : String) → ℤ → MainBoqItem
  new_main_item boq_id position = record {
    id = "";
    boq = boq_id;
    sort_order = position;
    description = "New Item";
    qty = float_of_int (pos 1);
    uom = "Nos";
    unit_price = float_zero;
    quoted_price = float_of_int (pos 1);
    budgeted_price = float_zero;
    hsn_code = "";
    gst_percent = float_of_int (pos 18);
  }

  abbrev pub new_sub_item : (main_item_id : String) → ℤ → SubItem
  new_sub_item main_item_id position = record {
    id = "";
    main_item = main_item_id;
    sort_order = position;
    type_of = "product";
    description = "New Sub Item";
    qty_per_unit = float_of_int (pos 1);
    uom = "Nos";
    unit_price = float_of_int (pos 1);
    budgeted_price = float_of_int (pos 1);
    hsn_code = "";
    gst_percent = float_of_int (pos 18);
  }

  abbrev pub new_sub_sub_item : (sub_item_id : String) → ℤ → SubSubItem
  new_sub_sub_item sub_item_id position = record {
    id = "";
    sub_item = sub_item_id;
    sort_order = position;
    type_of = "product";
    description = "New Sub-Sub Item";
    qty_per_unit = float_of_int (pos 1);
    uom = "Nos";
    unit_price = float_of_int (pos 1);
    budgeted_price = float_of_int (pos 1);
    hsn_code = "";
    gst_percent = float_of_int (pos 18);
  }

  -- The records of a collection that belong to the parent, by `sort_order`.
  abbrev pub main_item_position : (boq_id : String) → Db → ℤ
  main_item_position boq_id db =
      next_position (find_records_by_filter main_boq_items (λ r. r.boq == boq_id) "sort_order" 0 db)

  abbrev pub sub_item_position : (main_item_id : String) → Db → ℤ
  sub_item_position main_item_id db =
      next_position
        (find_records_by_filter sub_items (λ r. r.main_item == main_item_id) "sort_order" 0 db)

  abbrev pub sub_sub_item_position : (sub_item_id : String) → Db → ℤ
  sub_sub_item_position sub_item_id db =
      next_position
        (find_records_by_filter sub_sub_items (λ r. r.sub_item == sub_item_id) "sort_order" 0 db)

  abbrev pub store_item : (c : Collection) → (Db → Row c) → Exec Db Error (Unit {0})
  store_item c new db = (attempt (save_failed c) (save c (new db)) >> pure tt) db

  -- `HandleAddMainItem`
  unfoldable pub handle_add_main_item : (boq_id : String) → Exec Db Error (Unit {0})
  handle_add_main_item boq_id = do
    throw_if (boq_id == "") missing_id
    known ← gets (has_collection main_boq_items)
    throw_if (not known) (collection_not_found main_boq_items)
    store_item main_boq_items (λ db. new_main_item boq_id (main_item_position boq_id db))
    build_boq_edit_data boq_id

  -- `HandleAddSubItem`
  unfoldable pub handle_add_sub_item : (boq_id main_item_id : String) → Exec Db Error (Unit {0})
  handle_add_sub_item boq_id main_item_id = do
    throw_if (boq_id == "" || main_item_id == "") missing_id
    known ← gets (has_collection sub_items)
    throw_if (not known) (collection_not_found sub_items)
    store_item sub_items (λ db. new_sub_item main_item_id (sub_item_position main_item_id db))
    build_boq_edit_data boq_id

  -- `HandleAddSubSubItem`
  unfoldable pub handle_add_sub_sub_item : (boq_id sub_item_id : String) → Exec Db Error (Unit {0})
  handle_add_sub_sub_item boq_id sub_item_id = do
    throw_if (boq_id == "" || sub_item_id == "") missing_id
    known ← gets (has_collection sub_sub_items)
    throw_if (not known) (collection_not_found sub_sub_items)
    store_item sub_sub_items
        (λ db. new_sub_sub_item sub_item_id (sub_sub_item_position sub_item_id db))
    found ← gets (find_record_by_id sub_items sub_item_id)
    or_throw (record_not_found sub_items) found
    build_boq_edit_data boq_id
