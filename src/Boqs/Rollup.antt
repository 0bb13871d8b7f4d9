-- ===== src/Boqs/Rollup.antt =====
-- HandleBOQUpdate: the sums that its loops carry along are the prices of handlers/items.go.
use project_tracker.Prelude.{◌≡◌, refl, ap, ◌∙◌, List, [], ◌∷◌, map}
use project_tracker.Store.Schema.{
  Float64, MainBoqItem, SubItem, SubSubItem, main_boq_items, sub_items, sub_sub_items,
}
use project_tracker.Store.App.{App}
use project_tracker.Shipment.Form.{Form}
use project_tracker.Pricing.{sum_from, calc_sub_sub_item_budgeted}
use project_tracker.Items.{sub_item_price, main_item_price}
use project_tracker.Boqs.Update.{
  edit_main_item, edit_sub_item, edit_sub_sub_item, saved, update_sub_sub_items, with_sub_price,
  sub_sub_items_of, update_sub_item, update_sub_items, with_main_price, sub_items_of,
  update_main_item,
}

module _ (app : App) (form : Form) where
  open app use {Db, float_zero}

  -- A sub-sub-item with the fields of the form and the price of services/pricing.go.
  abbrev pub costed : SubSubItem → SubSubItem
  costed ssi =
      let edited = edit_sub_sub_item app form ssi in
      record edited {
        budgeted_price = calc_sub_sub_item_budgeted app edited.qty_per_unit edited.unit_price;
      }

  -- Saves one after the other.
  unfoldable pub save_all : List SubSubItem → Db → Db
  save_all [] db = db
  save_all (r ∷ rs) db = save_all rs (saved app sub_sub_items r db)

  -- The sub-items as the loop saves them, one after the other, and the store after that.
  unfoldable pub saved_subs : List SubItem → Db → List SubItem
  saved_subs [] db = []
  saved_subs (si ∷ sis) db =
      (update_sub_item app form si db).0 ∷ saved_subs sis ((update_sub_item app form si db).1)

  unfoldable pub after_subs : List SubItem → Db → Db
  after_subs [] db = db
  after_subs (si ∷ sis) db = after_subs sis ((update_sub_item app form si db).1)

  abbrev pub priced_sub : SubItem → List SubSubItem → SubItem
  priced_sub si ssis = record (edit_sub_item app form si) {
    budgeted_price = sub_item_price app (edit_sub_item app form si) ssis;
  }

  abbrev pub priced_main : MainBoqItem → List SubItem → MainBoqItem
  priced_main mi sis = record (edit_main_item app form mi) {
    budgeted_price = main_item_price app (edit_main_item app form mi) sis;
  }

  -- What a round leaves: the item as priced, and the store in which it was saved after the items
  -- below it.
  abbrev pub SubSaved : SubItem → Db → SubItem × Db → Type 0
  SubSaved si db round =
      let ssis = map costed (sub_sub_items_of app si db) in
      round ≡ (priced_sub si ssis, saved app sub_items (priced_sub si ssis) (save_all ssis db))

  abbrev pub MainSaved : MainBoqItem → Db → MainBoqItem × Db → Type 0
  MainSaved mi db round =
      let sis = sub_items_of app mi db in
      round ≡ (
        priced_main mi (saved_subs sis db),
        saved app main_boq_items (priced_main mi (saved_subs sis db)) (after_subs sis db),
      )

  sub_sub_loop :
      (ssis : List SubSubItem) (t : Float64) (db : Db)
      → update_sub_sub_items app form ssis t db ≡ (
        sum_from app t (map (λ r. r.budgeted_price) (map costed ssis)),
        save_all (map costed ssis) db,
      )
  unfolding update_sub_sub_items sum_from save_all calc_sub_sub_item_budgeted
  sub_sub_loop [] t db = refl
  sub_sub_loop (ssi ∷ ssis) t db = sub_sub_loop ssis _ _

  sub_loop :
      (sis : List SubItem) (t : Float64) (db : Db)
      → update_sub_items app form sis t db
        ≡ (sum_from app t (map (λ r. r.budgeted_price) (saved_subs sis db)), after_subs sis db)
  unfolding update_sub_items sum_from saved_subs after_subs
  sub_loop [] t db = refl
  sub_loop (si ∷ sis) t db = sub_loop sis _ _

  sub_price :
      (ssis : List SubSubItem) (si : SubItem)
      → with_sub_price app ssis
          (sum_from app float_zero (map (λ r. r.budgeted_price) (map costed ssis)))
          (edit_sub_item app form si)
        ≡ priced_sub si (map costed ssis)
  unfolding sub_item_price
  sub_price [] si = refl
  sub_price (ssi ∷ ssis) si = refl

  main_price :
      (sis : List SubItem) (db : Db) (mi : MainBoqItem)
      → with_main_price app sis
          (sum_from app float_zero (map (λ r. r.budgeted_price) (saved_subs sis db)))
          (edit_main_item app form mi)
        ≡ priced_main mi (saved_subs sis db)
  unfolding main_item_price saved_subs
  main_price [] db mi = refl
  main_price (si ∷ sis) db mi = refl

  -- In HandleBOQUpdate the sub-sub-items of a sub-item are saved with their quantity times their unit
  -- price, then the sub-item is saved with the price that recalcSubItemBudgeted gives it from its
  -- sub-sub-items as they are saved, and a main item, after its sub-items, with the price that
  -- recalcMainItemBudgeted gives it from these as they are saved.
  pub update_main_item-price :
      (si : SubItem) (mi : MainBoqItem) (db : Db)
      → SubSaved si db (update_sub_item app form si db)
        × MainSaved mi db (update_main_item app form mi db)
  unfolding update_sub_item update_main_item
  update_main_item-price si mi db =
      let ssis = sub_sub_items_of app si db in
      let sis = sub_items_of app mi db in
      (
        ap
              (λ (x : Float64 × Db).
                let priced = with_sub_price app ssis x.0 (edit_sub_item app form si) in
                (priced, saved app sub_items priced x.1))
              (sub_sub_loop ssis float_zero db)
            ∙ ap (λ r. (r, saved app sub_items r (save_all (map costed ssis) db)))
                (sub_price ssis si),
        ap
              (λ (x : Float64 × Db).
                let priced = with_main_price app sis x.0 (edit_main_item app form mi) in
                (priced, saved app main_boq_items priced x.1))
              (sub_loop sis float_zero db)
            ∙ ap (λ r. (r, saved app main_boq_items r (after_subs sis db))) (main_price sis db mi),
      )
