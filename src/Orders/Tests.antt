-- ===== src/Orders/Tests.antt =====
-- Purchase orders, on a store in memory: two orders with a line each.
use project_tracker.Prelude.{ne_of_test, String, ◌≡◌, ◌≢◌, refl, [], ◌∷◌, some, true}
use project_tracker.Prelude.Int.{pos, ◌+ℤ◌}
use project_tracker.Prelude.Text.Space.{trim_space, trim_right, trim_left, is_space, cons_trimmed}
use project_tracker.Prelude.Exec.{err, ok}
use project_tracker.Store.Schema.{PurchaseOrder, PoLineItem, purchase_orders, po_line_items}
use project_tracker.Store.Memory.{MemDb, empty_db, put_table}
use project_tracker.Store.Memory.Lawful.{memory-Laws}
use project_tracker.Store.Samples.{app, every, june}
use project_tracker.Services.{foreign_order}
use project_tracker.Shipment.Form.{Form, get_val}
use project_tracker.Orders.{trimmed, update_order, handle_po_update, is_valid_status_transition}
use project_tracker.Orders.Status.{Allowed, Reaches, is_valid_status_transition-Allowed}
use project_tracker.Orders.Progress.{handle_po_update-steps}
use project_tracker.Orders.History.{Updates, Kept, updates-Kept, updates-left_draft}
use project_tracker.Orders.Lines.{
  line_refused, manual_line, get_next_sort_order, handle_po_add_line_item,
}
use project_tracker.Orders.Change.{handle_po_update_line_item}
use project_tracker.Orders.Foreign.{
  handle_po_add_line_item-foreign, handle_po_update_line_item-untouched,
}
use mathlib.Core.Logic.{◌↔◌}

abbrev order : String → PurchaseOrder
order i = record {
  id = i;
  project = "p1";
  vendor = "v1";
  po_number = "PO-1";
  order_date = "";
  quotation_ref = "";
  ref_date = "";
  bill_to_address = "";
  ship_to_address = "";
  payment_terms = "";
  delivery_terms = "";
  warranty_terms = "";
  comments = "";
  status = "draft";
}

abbrev order_line : String → String → PoLineItem
order_line i o = record {
  id = i;
  purchase_order = o;
  sort_order = pos 1;
  description = "Pipe";
  hsn_code = "";
  qty = record { bits = 1 };
  uom = "m";
  rate = record { bits = 1 };
  gst_percent = record { bits = 1 };
  source_item_type = "manual";
  source_item_id = "";
}

abbrev orders : MemDb
orders =
    put_table po_line_items (order_line "k1" "o1" ∷ order_line "k2" "o2" ∷ [])
      (put_table purchase_orders (order "o1" ∷ order "o2" ∷ []) empty_db)

abbrev sent_form : Form
sent_form = ("new_status", "sent" ∷ []) ∷ []

abbrev line_form : Form
line_form = ("description", "Valve" ∷ []) ∷ ("uom", "Nos" ∷ []) ∷ ("qty", "2" ∷ []) ∷ []

is_valid_status_transition-Allowed_example :
    (is_valid_status_transition "sent" "cancelled" ≡ true) ↔ Allowed "sent" "cancelled"
is_valid_status_transition-Allowed_example = is_valid_status_transition-Allowed "sent" "cancelled"

abbrev one_call : Updates app orders ((handle_po_update app "p1" "o1" sent_form orders).1)
one_call =
    Updates.then_update orders orders ((handle_po_update app "p1" "o1" sent_form orders).1) "p1"
      "o1" sent_form (Updates.no_calls orders) refl

updates-Kept_example :
    Kept app Reaches (order "o1") "o1" ((handle_po_update app "p1" "o1" sent_form orders).1)
updates-Kept_example =
    updates-Kept app (memory-Laws every june) "o1" (order "o1") orders
      ((handle_po_update app "p1" "o1" sent_form orders).1) refl one_call

handle_po_update_line_item-untouched_example :
    app.find_record_by_id po_line_items "k2"
      ((handle_po_update_line_item app "p1" "o1" "k1" line_form orders).1)
    ≡ some (order_line "k2" "o2")
handle_po_update_line_item-untouched_example =
    handle_po_update_line_item-untouched app (memory-Laws every june) "p1" "o1" "k1" line_form
      orders "k2" (order_line "k2" "o2") refl (ne_of_test "o2" "o1" refl)

abbrev valve : PoLineItem
valve = record {
  id = "k1k2x";
  purchase_order = "o1";
  sort_order = pos 2;
  description = "Valve";
  hsn_code = "";
  qty = record { bits = 1 };
  uom = "Nos";
  rate = record { bits = 0 };
  gst_percent = record { bits = 0 };
  source_item_type = "manual";
  source_item_id = "";
}

abbrev with_valve : MemDb
with_valve =
    put_table po_line_items (valve ∷ order_line "k1" "o1" ∷ order_line "k2" "o2" ∷ []) orders

handle_po_add_line_item-foreign_example :
    (handle_po_add_line_item app "p2" "o1" line_form orders ≡ (err foreign_order, with_valve))
    × (valve.purchase_order ≡ "o1")
    × (app.find_record_by_id po_line_items valve.id with_valve ≡ some valve)
unfolding ◌+ℤ◌ line_refused trimmed manual_line get_next_sort_order get_val trim_space trim_right
    trim_left is_space cons_trimmed
handle_po_add_line_item-foreign_example =
    handle_po_add_line_item-foreign app (memory-Laws every june) "p2" "o1" line_form orders
      (order "o1") refl (ne_of_test "p1" "p2" refl) refl refl refl

abbrev sent_order : PurchaseOrder
sent_order = record (order "o1") { status = "sent" }

abbrev with_sent : MemDb
with_sent = put_table purchase_orders (sent_order ∷ order "o2" ∷ []) orders

handle_po_update-steps_example :
    (handle_po_update app "p1" "o1" sent_form orders ≡ (ok tt, with_sent))
    × (app.find_record_by_id purchase_orders "o1" with_sent ≡ some sent_order)
    × (sent_order.status ≡ trimmed sent_form "new_status")
unfolding update_order trimmed get_val trim_space trim_right trim_left is_space cons_trimmed
handle_po_update-steps_example =
    handle_po_update-steps app (memory-Laws every june) "p1" "o1" sent_form orders (order "o1") refl
      refl Allowed.send refl

abbrev sent_call : Updates app with_sent ((handle_po_update app "p1" "o1" sent_form with_sent).1)
sent_call =
    Updates.then_update with_sent with_sent ((handle_po_update app "p1" "o1" sent_form with_sent).1)
      "p1" "o1" sent_form (Updates.no_calls with_sent) refl

updates-left_draft_example :
    (q : PurchaseOrder) × (app.find_record_by_id purchase_orders "o1"
        ((handle_po_update app "p1" "o1" sent_form with_sent).1)
      ≡ some q)
    × (q.status ≢ "draft")
updates-left_draft_example =
    updates-left_draft app (memory-Laws every june) "o1" sent_order with_sent
      ((handle_po_update app "p1" "o1" sent_form with_sent).1) refl (ne_of_test "sent" "draft" refl)
      sent_call
