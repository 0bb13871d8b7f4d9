-- ===== src/Orders/Foreign.antt =====
-- handlers/po_line_items.go: what a request can do to the lines of other orders and projects.
use project_tracker.Prelude.{
  String, ◌==◌, ◌≡◌, ◌≢◌, inl, inr, refl, sym, ap, ◌∙◌, true, false, Option, none, some,
  some-injective, Bool-cases, Option-cases, eq_iff, test_of_ne,
}
use project_tracker.Prelude.Exec.{err, attempt, or_throw, pure, ◌>>=◌}
use project_tracker.Store.Schema.{PurchaseOrder, PoLineItem, purchase_orders, po_line_items}
use project_tracker.Store.App.{App, Laws}
use project_tracker.Store.Saved.{save_stored, save_fresh}
use project_tracker.Services.{Error, foreign_order, words_panic}
use project_tracker.Shipment.Form.{Form}
use project_tracker.Orders.Lines.{
  PoEditData, build_po_edit_data, line_refused, manual_line, get_next_sort_order, store_line,
  handle_po_add_line_item,
}
use project_tracker.Orders.Change.{update_line, handle_po_update_line_item}

orders_apart : purchase_orders ≢ po_line_items
orders_apart e = cc

module _ (app : App) where
  open app use {Db, has_collection, find_record_by_id, save}

  -- The end of building the page.
  worded-same :
      (o : Option String) (f : String → PoEditData) (db : Db)
      → ((or_throw words_panic o >>= (λ w. pure {E = Error} (f w))) db).1 ≡ db
  worded-same none f db = refl
  worded-same (some w) f db = refl

  -- Building the page changes nothing.
  build-same : (project_id id : String) (db : Db) → (build_po_edit_data app project_id id db).1 ≡ db
  unfolding build_po_edit_data
  build-same project_id id db = elim (Option-cases (find_record_by_id purchase_orders id db)) [
    | inl missing ↦ rw missing refl
    | inr (po, found) ↦ elim (Bool-cases (po.project == project_id)) [
      | inl own ↦ rw (found, own) (worded-same _ _ db)
      | inr foreign ↦ rw (found, foreign) refl
    ]
  ]

  build-foreign :
      (project_id id : String) (db : Db) (po : PurchaseOrder)
      → find_record_by_id purchase_orders id db ≡ some po
      → po.project ≢ project_id
      → build_po_edit_data app project_id id db ≡ (err foreign_order, db)
  unfolding build_po_edit_data
  build-foreign project_id id db po found ne = rw (found, test_of_ne po.project project_id ne) refl

  module _ (laws : Laws app) where
    -- HandlePOAddLineItem with a valid form for an order of another project stores the line in that
    -- order, and then returns an error, if the collection is known and the save goes through.
    pub handle_po_add_line_item-foreign :
        (project_id po_id : String) (form : Form) (db : Db) (po : PurchaseOrder) {r : PoLineItem}
        {db' : Db}
        → find_record_by_id purchase_orders po_id db ≡ some po
        → po.project ≢ project_id
        → line_refused app form ≡ false
        → has_collection po_line_items db ≡ true
        → save po_line_items (manual_line app po_id form (get_next_sort_order app po_id db)) db
          ≡ some (r, db')
        → (handle_po_add_line_item app project_id po_id form db ≡ (err foreign_order, db'))
          × (r.purchase_order ≡ po_id)
          × (find_record_by_id po_line_items r.id db' ≡ some r)
    unfolding handle_po_add_line_item store_line manual_line
    handle_po_add_line_item-foreign project_id po_id form db po {r} {db'} found ne fine known w =
        let (i, shape, free, saved) = save_fresh app laws po_line_items _ db refl w in
        let there = saved.elsewhere purchase_orders po_id orders_apart ∙ found in
        (
          rw (fine, known, attempt, w) (build-foreign project_id po_id db' po there ne),
          ap (λ (x : PoLineItem). x.purchase_order) shape,
          saved.found,
        )

    untouched :
        (po_id i j : String) (form : Form) (item q : PoLineItem) (db : Db) {r : PoLineItem} {d : Db}
        → find_record_by_id po_line_items i db ≡ some item
        → item.purchase_order ≡ po_id
        → find_record_by_id po_line_items j db ≡ some q
        → q.purchase_order ≢ po_id
        → save po_line_items (update_line app form item) db ≡ some (r, d)
        → find_record_by_id po_line_items j d ≡ some q
    unfolding update_line
    untouched po_id i j form item q db {r} {d} found own stored ne w =
        let saved = (save_stored app laws po_line_items _ db i item found refl w).1 in
        let apart : j ≢ item.id = λ e.
          let hit : some q ≡ some item =
            sym stored
            ∙ ap (λ k. find_record_by_id po_line_items k db)
                (e ∙ laws.id-find po_line_items i db item found)
            ∙ found in
          ne (ap (λ (x : PoLineItem). x.purchase_order) (some-injective q item hit) ∙ own) in
        saved.others j apart ∙ stored

    -- HandlePOUpdateLineItem never changes a line of an order other than the one it is called for.
    pub handle_po_update_line_item-untouched :
        (project_id po_id item_id : String) (form : Form) (db : Db) (j : String) (q : PoLineItem)
        → find_record_by_id po_line_items j db ≡ some q
        → q.purchase_order ≢ po_id
        → find_record_by_id po_line_items j
            ((handle_po_update_line_item app project_id po_id item_id form db).1)
          ≡ some q
    unfolding handle_po_update_line_item
    handle_po_update_line_item-untouched project_id po_id item_id form db j q stored ne =
        elim (Option-cases (find_record_by_id po_line_items item_id db)) [
          | inl missing ↦ rw missing stored
          | inr (item, found) ↦ elim (Bool-cases (item.purchase_order == po_id)) [
            | inr foreign ↦ rw (found, foreign) stored
            | inl own ↦ elim (Option-cases (save po_line_items (update_line app form item) db)) [
              | inl failed ↦ rw (found, own, attempt, failed) stored
              | inr ((r, d), w) ↦
                  rw (found, own, attempt, w)
                    (ap (find_record_by_id po_line_items j) (build-same project_id po_id d)
                      ∙ untouched po_id item_id j form item q db found
                          ((eq_iff item.purchase_order po_id).0 own) stored ne w)
            ]
          ]
        ]
