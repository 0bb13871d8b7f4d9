-- ===== src/Orders.antt =====
-- handlers/po_create.go, po_edit.go and po_delete.go: purchase orders. A form that is refused
-- changes nothing; that answer, a page with messages, is the error `invalid_form` here.
pub mod Lines
pub mod Change
pub mod Foreign
pub mod Status
pub mod History
pub mod Progress
mod Tests
use project_tracker.Prelude.{
  String, ◌==◌, ◌||◌, ◌&&◌, not, Bool, true, false, if◌then◌else◌, Option, none, some,
}
use project_tracker.Prelude.Text.Space.{trim_space}
use project_tracker.Prelude.Exec.{
  Exec, ◌>>=◌, ◌>>◌, pure, gets, or_throw, throw_if, attempt, wrap_err,
}
use project_tracker.Store.Schema.{PurchaseOrder, purchase_orders}
use project_tracker.Store.App.{App}
use project_tracker.Services.{
  Error, invalid_form, record_not_found, save_failed, collection_not_found, delete_failed,
  order_not_deletable, number_failed,
}
use project_tracker.Numbering.Sequence.{generate_po_number}
use project_tracker.Shipment.Form.{Form, get_val}

-- `isValidStatusTransition`
unfoldable pub is_valid_status_transition : (current_status new_status : String) → Bool
is_valid_status_transition current_status new_status =
    if new_status == "cancelled"
    then true
    else if current_status == "draft"
    then new_status == "sent"
    else if current_status == "sent"
    then new_status == "acknowledged"
    else if current_status == "acknowledged"
    then new_status == "completed"
    else false

-- The status check of `HandlePOUpdate`; `true` is an error.
unfoldable pub status_refused : (current_status new_status : String) → Bool
unfolding is_valid_status_transition
status_refused current_status new_status =
    if new_status == ""
    then false
    else if new_status == "draft"
    then not (current_status == "draft")
    else not (is_valid_status_transition current_status new_status)

-- `strings.TrimSpace(e.Request.FormValue(name))`
unfoldable pub trimmed : Form → String → String
trimmed form name = trim_space (get_val form name)

-- The fields that `HandlePOUpdate` sets; the vendor and the number are not among them.
unfoldable pub update_order : Form → PurchaseOrder → PurchaseOrder
unfolding trimmed
update_order form r = record r {
  order_date = trimmed form "order_date";
  quotation_ref = trimmed form "quotation_ref";
  ref_date = trimmed form "ref_date";
  bill_to_address = trimmed form "bill_to_address_id";
  ship_to_address = trimmed form "ship_to_address_id";
  payment_terms = trimmed form "payment_terms";
  delivery_terms = trimmed form "delivery_terms";
  warranty_terms = trimmed form "warranty_terms";
  comments = trimmed form "comments";
  status = if trimmed form "new_status" == "" then r.status else trimmed form "new_status";
}

module _ (app : App) where
  open app use {Db, has_collection, find_record_by_id, save, delete}

  -- `HandlePOSave`, with the date of the clock
  unfoldable pub handle_po_save : String → Form → Exec Db Error String
  unfolding trimmed
  handle_po_save project_id form = do
    throw_if (trimmed form "vendor_id" == "") invalid_form
    po_number ← generate_po_number app project_id app.today
    known ← gets (has_collection purchase_orders)
    throw_if (not known) (collection_not_found purchase_orders)
    saved ← attempt (save_failed purchase_orders) (
        save purchase_orders (record {
          id = "";
          project = project_id;
          vendor = trimmed form "vendor_id";
          po_number = po_number;
          status = "draft";
          order_date = trimmed form "order_date";
          quotation_ref = trimmed form "quotation_ref";
          ref_date = trimmed form "ref_date";
          bill_to_address = trimmed form "bill_to_address_id";
          ship_to_address = trimmed form "ship_to_address_id";
          payment_terms = trimmed form "payment_terms";
          delivery_terms = trimmed form "delivery_terms";
          warranty_terms = trimmed form "warranty_terms";
          comments = trimmed form "comments";
        }))
    pure saved.id

  -- `HandlePOUpdate`
  unfoldable pub handle_po_update : (project_id id : String) → Form → Exec Db Error (Unit {0})
  unfolding trimmed
  handle_po_update project_id id form = do
    found ← gets (find_record_by_id purchase_orders id)
    po ← or_throw (record_not_found purchase_orders) found
    throw_if (not (po.project == project_id)) (record_not_found purchase_orders)
    throw_if (status_refused po.status (trimmed form "new_status")) invalid_form
    attempt (save_failed purchase_orders) (save purchase_orders (update_order form po)) >> pure tt

  -- `HandlePODelete`
  unfoldable pub handle_po_delete : (project_id id : String) → Exec Db Error (Unit {0})
  handle_po_delete project_id id = do
    found ← gets (find_record_by_id purchase_orders id)
    po ← or_throw (record_not_found purchase_orders) found
    throw_if (not (po.project == project_id)) (record_not_found purchase_orders)
    throw_if (not (po.status == "draft") && not (po.status == "cancelled"))
        (order_not_deletable po.status)
    attempt delete_failed (delete purchase_orders po.id)
