-- ===== src/Items.antt =====
-- handlers/items.go: the items of a bill of quantities. Budgeted prices are stored on all three
-- levels and computed again, from the lowest level up, when an item changes or goes away.

pub mod Patch
pub mod Remove
pub mod Totals
pub mod Ignored
mod Tests
use project_tracker.Prelude.{
  String, ◌==◌, List, [], ◌∷◌, map, Option, none, some, not, if◌then◌else◌,
}
use project_tracker.Prelude.Exec.{Exec, ◌>>=◌, ◌>>◌, pure, gets, ignore}
use project_tracker.Store.Schema.{
  Float64, SubItem, SubSubItem, MainBoqItem, sub_sub_items, sub_items, main_boq_items,
}
use project_tracker.Store.App.{App}
use project_tracker.Services.{Error}
use project_tracker.Pricing.{sum_from}

module _ (app : App) where
  open app use {
    Db, has_collection, find_record_by_id, find_records_by_filter, save, float_mul, float_zero,
  }

  -- `if err != nil { return }` before the rest of a procedure.
  abbrev pub or_return :
      {A : Type 0} → Option A → (A → Exec Db Error (Unit {0})) → Exec Db Error (Unit {0})
  or_return none f = pure tt
  or_return (some a) f = f a

  -- The budgeted price of a sub-item: the sum of its sub-sub-items, or its own quantity and price.
  unfoldable pub sub_item_price : SubItem → List SubSubItem → Float64
  unfolding sum_from
  sub_item_price si [] = float_mul si.qty_per_unit si.unit_price
  sub_item_price si (ssi ∷ rest) =
      sum_from app float_zero (map (λ r. r.budgeted_price) (ssi ∷ rest))

  -- The budgeted price of a main item, which stays when there are no sub-items.
  unfoldable pub main_item_price : MainBoqItem → List SubItem → Float64
  unfolding sum_from
  main_item_price mi [] = mi.budgeted_price
  main_item_price mi (si ∷ rest) =
      float_mul (sum_from app float_zero (map (λ r. r.budgeted_price) (si ∷ rest))) mi.qty

  unfoldable pub store_sub_price : List SubSubItem → SubItem → Exec Db Error (Unit {0})
  store_sub_price ssis si =
      ignore (save sub_items (record si { budgeted_price = sub_item_price si ssis }))

  unfoldable pub price_sub_item : String → List SubSubItem → Exec Db Error (Unit {0})
  price_sub_item sub_item_id ssis db =
      or_return (find_record_by_id sub_items sub_item_id db) (store_sub_price ssis) db

  -- `recalcSubItemBudgeted`
  unfoldable pub recalc_sub_item_budgeted : String → Exec Db Error (Unit {0})
  recalc_sub_item_budgeted sub_item_id db =
      if has_collection sub_sub_items db
      then or_return
          (find_records_by_filter sub_sub_items (λ r. r.sub_item == sub_item_id) "sort_order" 0 db)
          (price_sub_item sub_item_id) db
      else pure tt db

  unfoldable pub store_main_price : List SubItem → MainBoqItem → Exec Db Error (Unit {0})
  store_main_price sis mi =
      ignore (save main_boq_items (record mi { budgeted_price = main_item_price mi sis }))

  unfoldable pub price_main_item : String → List SubItem → Exec Db Error (Unit {0})
  price_main_item main_item_id sis db =
      or_return (find_record_by_id main_boq_items main_item_id db) (store_main_price sis) db

  -- `recalcMainItemBudgeted`
  unfoldable pub recalc_main_item_budgeted : String → Exec Db Error (Unit {0})
  recalc_main_item_budgeted main_item_id db =
      if has_collection sub_items db
      then or_return
          (find_records_by_filter sub_items (λ r. r.main_item == main_item_id) "sort_order" 0 db)
          (price_main_item main_item_id) db
      else pure tt db
