-- ===== src/Orders/Change.antt =====
-- handlers/po_line_items.go: changes and removals of the lines of a purchase order.
use project_tracker.Prelude.{String, ◌==◌, not, if◌then◌else◌, none, some}
use project_tracker.Prelude.Exec.{Exec, ◌>>=◌, ◌>>◌, gets, or_throw, throw_if, attempt}
use project_tracker.Store.Schema.{Float64, PoLineItem, po_line_items}
use project_tracker.Store.App.{App}
use project_tracker.Services.{
  Error, record_not_found, save_failed, delete_failed, foreign_line_item,
}
use project_tracker.Shipment.Form.{Form}
use project_tracker.Orders.{trimmed}
use project_tracker.Orders.Lines.{PoEditData, build_po_edit_data}

-- `if v := ...; v != "" { item.Set(name, v) }`
abbrev pub text_or : String → String → String
text_or v old = if v == "" then old else v

module _ (app : App) where
  open app use {Db, find_record_by_id, save, delete, parse_float}

  -- The same for a number: a text that is empty or no number leaves the old one.
  unfoldable pub number_or : String → Float64 → Float64
  number_or v old = if v == "" then old else elim (parse_float v) [ none ↦ old | some x ↦ x ]

  -- The fields that `HandlePOUpdateLineItem` sets.
  unfoldable pub update_line : Form → PoLineItem → PoLineItem
  unfolding trimmed number_or
  update_line form item = record item {
    description = text_or (trimmed form "description") item.description;
    hsn_code = text_or (trimmed form "hsn_code") item.hsn_code;
    uom = text_or (trimmed form "uom") item.uom;
    qty = number_or (trimmed form "qty") item.qty;
    rate = number_or (trimmed form "rate") item.rate;
    gst_percent = number_or (trimmed form "gst_percent") item.gst_percent;
  }

  -- `HandlePOUpdateLineItem`
  unfoldable pub handle_po_update_line_item :
      (project_id po_id item_id : String) → Form → Exec Db Error PoEditData
  handle_po_update_line_item project_id po_id item_id form = do
    found ← gets (find_record_by_id po_line_items item_id)
    item ← or_throw (record_not_found po_line_items) found
    throw_if (not (item.purchase_order == po_id)) foreign_line_item
    attempt (save_failed po_line_items) (save po_line_items (update_line form item))
    build_po_edit_data app project_id po_id

  -- `HandlePODeleteLineItem`
  unfoldable pub handle_po_delete_line_item :
      (project_id po_id item_id : String) → Exec Db Error PoEditData
  handle_po_delete_line_item project_id po_id item_id = do
    found ← gets (find_record_by_id po_line_items item_id)
    item ← or_throw (record_not_found po_line_items) found
    throw_if (not (item.purchase_order == po_id)) foreign_line_item
    attempt delete_failed (delete po_line_items item.id)
    build_po_edit_data app project_id po_id
