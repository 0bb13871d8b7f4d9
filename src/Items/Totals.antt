-- ===== src/Items/Totals.antt =====
-- handlers/items.go: what the computation of budgeted prices stores.
use project_tracker.Prelude.{
  if◌then◌else◌, String, ◌≡◌, ◌⊎◌, inl, inr, refl, Bool, true, false, Option, none, some, List,
  Option-cases, ◌==◌,
}
use project_tracker.Prelude.Exec.{Result, ok, err, Exec, ignore}
use project_tracker.Store.Schema.{
  MainBoqItem, SubItem, SubSubItem, main_boq_items, sub_items, sub_sub_items, Collection, Row,
  row_id,
}
use project_tracker.Store.App.{App, Laws}
use project_tracker.Store.Saved.{Saved, save_stored}
use project_tracker.Services.{Error}
use project_tracker.Items.{
  or_return, price_sub_item, store_sub_price, price_main_item, store_main_price,
  recalc_sub_item_budgeted, recalc_main_item_budgeted, sub_item_price, main_item_price,
}
use project_tracker.Boqs.Add.{build_boq_edit_data}

module _ (app : App) where
  open app use {Db, has_collection, find_record_by_id, find_records_by_filter, save, delete}

  -- Nothing is stored, or the sub-item with the price that its stored sub-sub-items give.
  abbrev pub SubPriced : String → Db → Db → Type 0
  SubPriced i db db' =
      (db' ≡ db)
      ⊎ ((si : SubItem) × (ssis : List SubSubItem) × (find_record_by_id sub_items i db ≡ some si)
          × (find_records_by_filter sub_sub_items (λ r. r.sub_item == i) "sort_order" 0 db
              ≡ some ssis)
          × Saved app sub_items (record si { budgeted_price = sub_item_price app si ssis }) db db')

  -- The same for a main item and its sub-items.
  abbrev pub MainPriced : String → Db → Db → Type 0
  MainPriced i db db' =
      (db' ≡ db)
      ⊎ ((mi : MainBoqItem) × (sis : List SubItem) × (find_record_by_id main_boq_items i db
            ≡ some mi)
          × (find_records_by_filter sub_items (λ r. r.main_item == i) "sort_order" 0 db ≡ some sis)
          × Saved app main_boq_items (record mi { budgeted_price = main_item_price app mi sis }) db
              db')

  -- A run that returned no error, and what it did.
  abbrev pub Ran : (Db → Type 0) → Result Error (Unit {0}) × Db → Type 0
  Ran P r = (r.0 ≡ ok tt) × P (r.1)

  or_return-Ran :
      {A : Type 0} (o : Option A) (f : A → Exec Db Error (Unit {0})) (db : Db) (P : Db → Type 0)
      → P db
      → ((a : A) → o ≡ some a → Ran P (f a db))
      → Ran P (or_return app o f db)
  or_return-Ran none f db P stay go = (refl, stay)
  or_return-Ran (some a) f db P stay go = go a refl

  if-Ran :
      (b : Bool) (r q : Result Error (Unit {0}) × Db) (P : Db → Type 0)
      → Ran P r
      → Ran P q
      → Ran P (if b then r else q)
  if-Ran true r q P l k = l
  if-Ran false r q P l k = k

  -- The sub-item went and its parent was priced.
  abbrev pub Removed : String → Db → Db → Type 0
  Removed i db db' =
      (si : SubItem) × (d : Db) × (find_record_by_id sub_items i db ≡ some si)
      × (delete sub_items si.id db ≡ some (tt, d))
      × MainPriced si.main_item d db'

  -- That is what a call without an error did. One with an error changed nothing, or did that and then
  -- could not build the page.
  abbrev pub SubItemRemoved : (boq_id i : String) → Db → Result Error (Unit {0}) × Db → Type 0
  SubItemRemoved boq_id i db (err e, db') =
      (db' ≡ db) ⊎ (Removed i db db' × (build_boq_edit_data app boq_id db' ≡ (err e, db')))
  SubItemRemoved boq_id i db (ok a, db') = Removed i db db'

  module _ (laws : Laws app) where
    ignored_save :
        (c : Collection) (r s : Row c) (i : String) (db : Db) (P : Db → Type 0)
        → find_record_by_id c i db ≡ some s
        → row_id c r ≡ row_id c s
        → P db
        → ((db' : Db) → Saved app c r db db' → P db')
        → Ran P (ignore (save c r) db)
    ignored_save c r s i db P found same stay go = elim (Option-cases (save c r db)) [
      | inl failed ↦ rw (failed, ignore) (refl, stay)
      | inr ((r', db'), w) ↦
          rw (w, ignore) (refl, go db' (save_stored app laws c r db i s found same w).1)
    ]

    pub recalc_sub_item_budgeted-SubPriced :
        (i : String) (db : Db) → Ran (SubPriced i db) (recalc_sub_item_budgeted app i db)
    unfolding recalc_sub_item_budgeted price_sub_item store_sub_price
    recalc_sub_item_budgeted-SubPriced i db =
        let P = SubPriced i db in
        let rows = find_records_by_filter sub_sub_items (λ r. r.sub_item == i) "sort_order" 0 db in
        if-Ran (has_collection sub_sub_items db) _ _ P
          (or_return-Ran rows (price_sub_item app i) db P (inl refl) (λ ssis q.
            or_return-Ran (find_record_by_id sub_items i db) (store_sub_price app ssis) db P
              (inl refl)
              (λ si found.
                ignored_save sub_items (record si { budgeted_price = sub_item_price app si ssis })
                  si i db P found refl (inl refl) (λ db' saved. inr (si, ssis, found, q, saved)))))
          (refl, inl refl)

    pub recalc_main_item_budgeted-MainPriced :
        (i : String) (db : Db) → Ran (MainPriced i db) (recalc_main_item_budgeted app i db)
    unfolding recalc_main_item_budgeted price_main_item store_main_price
    recalc_main_item_budgeted-MainPriced i db =
        let P = MainPriced i db in
        let rows = find_records_by_filter sub_items (λ r. r.main_item == i) "sort_order" 0 db in
        if-Ran (has_collection sub_items db) _ _ P
          (or_return-Ran rows (price_main_item app i) db P (inl refl) (λ sis q.
            or_return-Ran (find_record_by_id main_boq_items i db) (store_main_price app sis) db P
              (inl refl)
              (λ mi found.
                ignored_save main_boq_items
                  (record mi { budgeted_price = main_item_price app mi sis }) mi i db P found refl
                  (inl refl) (λ db' saved. inr (mi, sis, found, q, saved)))))
          (refl, inl refl)
