-- ===== src/Items/Remove.antt =====
-- handlers/items.go: the removal of items. Of the edit page that is sent back the errors are modelled. The delete
-- of the interface takes the items below along, as PocketBase does.
use project_tracker.Prelude.{String, ◌==◌, ◌||◌}
use project_tracker.Prelude.Exec.{Exec, ◌>>=◌, ◌>>◌, gets, or_throw, throw_if, attempt}
use project_tracker.Store.Schema.{main_boq_items, sub_items, sub_sub_items}
use project_tracker.Store.App.{App}
use project_tracker.Services.{Error, missing_id, record_not_found, delete_failed}
use project_tracker.Boqs.Add.{build_boq_edit_data}
use project_tracker.Items.{recalc_sub_item_budgeted, recalc_main_item_budgeted}

module _ (app : App) where
  open app use {Db, find_record_by_id, delete}

  -- `HandleDeleteMainItem`
  unfoldable pub handle_delete_main_item : (boq_id item_id : String) → Exec Db Error (Unit {0})
  handle_delete_main_item boq_id item_id = do
    throw_if (boq_id == "" || item_id == "") missing_id
    found ← gets (find_record_by_id main_boq_items item_id)
    mi ← or_throw (record_not_found main_boq_items) found
    attempt delete_failed (delete main_boq_items mi.id)
    build_boq_edit_data app boq_id

  -- `HandleDeleteSubItem`
  unfoldable pub handle_delete_sub_item : (boq_id sub_item_id : String) → Exec Db Error (Unit {0})
  handle_delete_sub_item boq_id sub_item_id = do
    throw_if (boq_id == "" || sub_item_id == "") missing_id
    found ← gets (find_record_by_id sub_items sub_item_id)
    si ← or_throw (record_not_found sub_items) found
    attempt delete_failed (delete sub_items si.id)
    recalc_main_item_budgeted app si.main_item
    build_boq_edit_data app boq_id

  -- `HandleDeleteSubSubItem`
  unfoldable pub handle_delete_sub_sub_item :
      (boq_id sub_sub_item_id : String) → Exec Db Error (Unit {0})
  handle_delete_sub_sub_item boq_id sub_sub_item_id = do
    throw_if (boq_id == "" || sub_sub_item_id == "") missing_id
    found ← gets (find_record_by_id sub_sub_items sub_sub_item_id)
    ssi ← or_throw (record_not_found sub_sub_items) found
    attempt delete_failed (delete sub_sub_items ssi.id)
    recalc_sub_item_budgeted app ssi.sub_item
    parent ← gets (find_record_by_id sub_items ssi.sub_item)
    si ← or_throw (record_not_found sub_items) parent
    recalc_main_item_budgeted app si.main_item
    build_boq_edit_data app boq_id
