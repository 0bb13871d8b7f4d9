-- ===== src/Orders/History.antt =====
-- handlers/po_edit.go: purchase orders under any sequence of updates.
use project_tracker.Prelude.{
  String, ◌==◌, ◌≡◌, ◌≢◌, ◌⊎◌, inl, inr, refl, sym, ap, ◌∙◌, subst, false, some, some-injective,
  Bool-cases, Option-cases, eq_iff, ne_of_test,
}
use project_tracker.Prelude.Exec.{attempt}
use project_tracker.Store.Schema.{PurchaseOrder, purchase_orders}
use project_tracker.Store.App.{App, Laws}
use project_tracker.Store.Saved.{Saved, save_stored}
use project_tracker.Shipment.Form.{Form}
use project_tracker.Orders.{handle_po_update, update_order, status_refused, trimmed}
use project_tracker.Orders.Status.{Allowed, Reaches, not_refused, Reaches-draft}

module _ (app : App) where
  open app use {Db, find_record_by_id, save}

  -- The stores that calls of HandlePOUpdate lead to, whatever they return.
  pub data Updates : Db → Db → Type 0 where
    no_calls : (db : Db) → Updates db db
    then_update :
        (db d db' : Db) (project_id id : String) (form : Form)
        → Updates db d
        → (handle_po_update app project_id id form d).1 ≡ db'
        → Updates db db'

  -- The order is stored, with the same project, vendor and number, and its status was reached.
  abbrev pub Kept : (String → String → Type 0) → PurchaseOrder → String → Db → Type 0
  Kept R po i db =
      (q : PurchaseOrder) × (find_record_by_id purchase_orders i db ≡ some q)
      × (q.project ≡ po.project)
      × (q.vendor ≡ po.vendor)
      × (q.po_number ≡ po.po_number)
      × R po.status q.status

  abbrev Moved : String → String → Type 0
  Moved s t = (t ≡ s) ⊎ Allowed s t

  module _ (laws : Laws app) (i : String) (po : PurchaseOrder) where
    unmoved : (db : Db) → find_record_by_id purchase_orders i db ≡ some po → Kept Moved po i db
    unmoved db found = (po, found, refl, refl, refl, inl refl)

    updated :
        (id : String) (form : Form) (r : PurchaseOrder) (db db' : Db)
        → find_record_by_id purchase_orders i db ≡ some po
        → find_record_by_id purchase_orders id db ≡ some r
        → status_refused r.status (trimmed form "new_status") ≡ false
        → Saved app purchase_orders (update_order form r) db db'
        → Kept Moved po i db'
    unfolding update_order
    updated id form r db db' found stored fine saved = elim (Bool-cases (i == r.id)) [
      | inr other ↦ unmoved db' (saved.others i (ne_of_test i r.id other) ∙ found)
      | inl hit ↦
          let e : i ≡ r.id = (eq_iff i r.id).0 hit in
          let known : find_record_by_id purchase_orders i db ≡ some r =
            ap (λ j. find_record_by_id purchase_orders j db)
              (e ∙ laws.id-find purchase_orders id db r stored)
            ∙ stored in
          let one : r ≡ po = some-injective r po (sym known ∙ found) in
          subst (λ x. Kept Moved x i db') one
            (
              update_order form r,
              subst (λ j. find_record_by_id purchase_orders j db' ≡ some (update_order form r))
                  (sym e) saved.found,
              refl,
              refl,
              refl,
              not_refused r.status (trimmed form "new_status") fine,
            )
    ]

    update_order-Saved :
        (id : String) (form : Form) (r : PurchaseOrder) (db : Db) {r' : PurchaseOrder} {db' : Db}
        → save purchase_orders (update_order form r) db ≡ some (r', db')
        → find_record_by_id purchase_orders id db ≡ some r
        → Saved app purchase_orders (update_order form r) db db'
    unfolding update_order
    update_order-Saved id form r db w stored =
        (save_stored app laws purchase_orders (update_order form r) db id r stored refl w).1

    one_update :
        (project_id id : String) (form : Form) (db : Db)
        → find_record_by_id purchase_orders i db ≡ some po
        → Kept Moved po i ((handle_po_update app project_id id form db).1)
    unfolding handle_po_update
    one_update project_id id form db found =
        elim (Option-cases (find_record_by_id purchase_orders id db)) [
          | inl missing ↦ rw missing (unmoved db found)
          | inr (r, stored) ↦ elim (Bool-cases (r.project == project_id)) [
            | inr foreign ↦ rw (stored, foreign) (unmoved db found)
            | inl own ↦ elim (Bool-cases (status_refused r.status (trimmed form "new_status"))) [
              | inl refused ↦ rw (stored, own, refused) (unmoved db found)
              | inr fine ↦ elim (Option-cases (save purchase_orders (update_order form r) db)) [
                | inl failed ↦ rw (stored, own, fine, attempt, failed) (unmoved db found)
                | inr ((r', db'), w) ↦
                    rw (stored, own, fine, attempt, w)
                      (updated id form r db db' found stored fine
                        (update_order-Saved id form r db w stored))
              ]
            ]
          ]
        ]

  reached : (s t u : String) → Reaches s t → Moved t u → Reaches s u
  reached s t u r (inl same) = subst (Reaches s) (sym same) r
  reached s t u r (inr step) = Reaches.then_step s t u r step

  module _ (laws : Laws app) (i : String) (po : PurchaseOrder) where
    one_more :
        (d db' : Db)
        → Kept Reaches po i d
        → ((q : PurchaseOrder)
            → find_record_by_id purchase_orders i d ≡ some q
            → Kept Moved q i db')
        → Kept Reaches po i db'
    one_more d db' (q, found, project, vendor, number, way) go =
        let (q', found', project', vendor', number', move) = go q found in
        (
          q',
          found',
          project' ∙ project,
          vendor' ∙ vendor,
          number' ∙ number,
          reached po.status q.status q'.status way move,
        )

    -- Under any sequence of calls of HandlePOUpdate, an order that was stored stays stored, keeps
    -- its project, its vendor and its number, and its status only moves along the allowed steps.
    pub updates-Kept :
        (db db' : Db)
        → find_record_by_id purchase_orders i db ≡ some po
        → Updates db db'
        → Kept Reaches po i db'
    updates-Kept db _ found (no_calls _) = (po, found, refl, refl, refl, Reaches.here po.status)
    updates-Kept db db' found (then_update _ d _ project_id id form run e) =
        one_more d db' (updates-Kept db d found run)
          (λ q stored. subst (Kept Moved q i) e (one_update laws i q project_id id form d stored))

    -- An order that is stored and is no draft is stored and no draft after any sequence of calls of
    -- HandlePOUpdate.
    pub updates-left_draft :
        (db db' : Db)
        → find_record_by_id purchase_orders i db ≡ some po
        → po.status ≢ "draft"
        → Updates db db'
        → (q : PurchaseOrder) × (find_record_by_id purchase_orders i db' ≡ some q)
          × (q.status ≢ "draft")
    updates-left_draft db db' found left run =
        let (q, there, project, vendor, number, way) = updates-Kept db db' found run in
        (q, there, λ e. left (Reaches-draft po.status (subst (Reaches po.status) e way)))
