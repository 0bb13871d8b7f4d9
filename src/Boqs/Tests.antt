-- ===== src/Boqs/Tests.antt =====
-- Bills of quantities, on a store in memory: two pumps with one part of one piece.
use project_tracker.Prelude.{◌≡◌, refl, [], ◌∷◌, some}
use project_tracker.Prelude.Int.{pos}
use project_tracker.Store.Schema.{
  MainBoqItem, SubItem, SubSubItem, Boq, main_boq_items, sub_items, sub_sub_items, boqs,
}
use project_tracker.Store.Memory.{MemDb, empty_db, put_table}
use project_tracker.Store.Memory.Lawful.{memory-Laws}
use project_tracker.Store.Samples.{app, every, june}
use project_tracker.Shipment.Form.{Form, get_val}
use project_tracker.Boqs.Update.{
  edit_main_item, edit_sub_item, edit_sub_sub_item, update_sub_item, update_sub_items,
  update_sub_sub_items, update_main_item, update_main_items, handle_boq_update,
}
use project_tracker.Boqs.Rollup.{SubSaved, MainSaved, update_main_item-price}
use project_tracker.Boqs.Add.{
  new_main_item, new_sub_item, new_sub_sub_item, handle_add_main_item, handle_add_sub_item,
  handle_add_sub_sub_item,
}
use project_tracker.Boqs.Added.{Added, IsMainItem, IsSubItem, IsSubSubItem, handle_add_item-Added}

abbrev bill : Boq
bill = record { id = "b1"; title = "Pumps"; reference_number = ""; project = "p1" }

abbrev pump_item : MainBoqItem
pump_item = record (new_main_item app "b1" (pos 1)) { id = "m1"; qty = record { bits = 2 } }

abbrev part : SubItem
part = record (new_sub_item app "m1" (pos 1)) { id = "i1" }

abbrev piece : SubSubItem
piece = record (new_sub_sub_item app "i1" (pos 1)) { id = "q1"; qty_per_unit = record { bits = 3 } }

abbrev one_bill : MemDb
one_bill = put_table boqs (bill ∷ []) (
    put_table main_boq_items (pump_item ∷ [])
      (put_table sub_items (part ∷ []) (put_table sub_sub_items (piece ∷ []) empty_db)))

abbrev renamed : Form
renamed = ("main_item_m1_description", "Big pump" ∷ []) ∷ []

-- Three pieces at 1 in each of two pumps.
updated_price :
    app.find_record_by_id main_boq_items "m1" ((handle_boq_update app "b1" renamed one_bill).1)
    ≡ some (record pump_item { description = "Big pump"; budgeted_price = record { bits = 6 } })
unfolding handle_boq_update update_main_items update_main_item update_sub_items update_sub_item
    update_sub_sub_items edit_main_item edit_sub_item edit_sub_sub_item get_val
updated_price = refl

update_main_item-price_example :
    SubSaved app renamed part one_bill (update_sub_item app renamed part one_bill)
    × MainSaved app renamed pump_item one_bill (update_main_item app renamed pump_item one_bill)
update_main_item-price_example = update_main_item-price app renamed part pump_item one_bill

handle_add_item-Added_example :
    Added app main_boq_items
      (IsMainItem app "b1" one_bill)
      one_bill
      (handle_add_main_item app "b1" one_bill)
    × Added app sub_items
        (IsSubItem app "m1" one_bill)
        one_bill
        (handle_add_sub_item app "b1" "m1" one_bill)
    × Added app sub_sub_items
        (IsSubSubItem app "m1" one_bill)
        one_bill
        (handle_add_sub_sub_item app "b1" "m1" one_bill)
handle_add_item-Added_example =
    handle_add_item-Added app (memory-Laws every june) "b1" "m1" one_bill
