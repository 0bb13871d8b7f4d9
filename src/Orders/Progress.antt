-- ===== src/Orders/Progress.antt =====
-- handlers/po_edit.go: every step in the life of an order can be taken.
use project_tracker.Prelude.{
  String, ◌==◌, ◌≡◌, refl, sym, ap, ◌∙◌, subst, true, false, some, eq_iff,
}
use project_tracker.Prelude.Exec.{ok, attempt}
use project_tracker.Store.Schema.{PurchaseOrder, purchase_orders}
use project_tracker.Store.App.{App, Laws}
use project_tracker.Store.Saved.{save_stored}
use project_tracker.Shipment.Form.{Form}
use project_tracker.Orders.{
  handle_po_update, update_order, status_refused, trimmed, is_valid_status_transition,
}
use project_tracker.Orders.Status.{Allowed}

step_accepted : (s t : String) → Allowed s t → status_refused s t ≡ false
unfolding status_refused is_valid_status_transition
step_accepted _ _ Allowed.send = refl
step_accepted _ _ Allowed.acknowledge = refl
step_accepted _ _ Allowed.complete = refl
step_accepted _ _ (Allowed.cancel s) = refl

step_named : (s t : String) → Allowed s t → (t == "") ≡ false
step_named _ _ Allowed.send = refl
step_named _ _ Allowed.acknowledge = refl
step_named _ _ Allowed.complete = refl
step_named _ _ (Allowed.cancel s) = refl

module _ (app : App) (laws : Laws app) where
  open app use {Db, find_record_by_id, save}

  updated_status :
      (form : Form) (po : PurchaseOrder)
      → Allowed po.status (trimmed form "new_status")
      → (update_order form po).status ≡ trimmed form "new_status"
  unfolding update_order
  updated_status form po step = rw (step_named po.status (trimmed form "new_status") step) refl

  -- A call of HandlePOUpdate that asks for an allowed step of an order of the project takes it, if
  -- the save goes through: no error is returned, and the order is stored with the new status.
  pub handle_po_update-steps :
      (project_id id : String) (form : Form) (db : Db) (po : PurchaseOrder) {r : PurchaseOrder}
      {db' : Db}
      → find_record_by_id purchase_orders id db ≡ some po
      → po.project ≡ project_id
      → Allowed po.status (trimmed form "new_status")
      → save purchase_orders (update_order form po) db ≡ some (r, db')
      → (handle_po_update app project_id id form db ≡ (ok tt, db'))
        × (find_record_by_id purchase_orders id db' ≡ some r)
        × (r.status ≡ trimmed form "new_status")
  unfolding handle_po_update update_order
  handle_po_update-steps project_id id form db po {r} {db'} found own step w =
      let own' : (po.project == project_id) ≡ true = (eq_iff po.project project_id).1 own in
      let fine = step_accepted po.status (trimmed form "new_status") step in
      let (same, saved) =
        save_stored app laws purchase_orders (update_order form po) db id po found refl w in
      let e : po.id ≡ id = laws.id-find purchase_orders id db po found in
      (
        rw (found, own', fine, attempt, w) refl,
        subst (λ j. find_record_by_id purchase_orders j db' ≡ some (update_order form po)) e
              saved.found
            ∙ ap some (sym same),
        ap (λ (x : PurchaseOrder). x.status) same ∙ updated_status form po step,
      )
