-- ===== src/Items/Tests.antt =====
-- Items, on a store in memory: a pump of two parts.
use project_tracker.Prelude.{String, ◌≡◌, refl, [], ◌∷◌, some}
use project_tracker.Prelude.Int.{pos}
use project_tracker.Store.Schema.{Float64, MainBoqItem, SubItem, main_boq_items, sub_items}
use project_tracker.Store.Memory.{MemDb, empty_db, put_table}
use project_tracker.Store.Memory.Lawful.{memory-Laws}
use project_tracker.Store.Samples.{app, every, june}
use project_tracker.Items.{
  recalc_main_item_budgeted, price_main_item, store_main_price, main_item_price,
}
use project_tracker.Items.Patch.{handle_patch_sub_item}
use project_tracker.Items.Ignored.{Unpatched, handle_patch_sub_item-Unpatched}
use project_tracker.Pricing.{sum_from}

abbrev amount : Float64
amount = record { bits = 5 }

abbrev pump_item : MainBoqItem
pump_item = record {
  id = "m1";
  boq = "b1";
  sort_order = pos 1;
  description = "Pump";
  qty = record { bits = 2 };
  uom = "Nos";
  unit_price = amount;
  quoted_price = amount;
  budgeted_price = record { bits = 0 };
  hsn_code = "";
  gst_percent = amount;
}

abbrev part : String → SubItem
part i = record {
  id = i;
  main_item = "m1";
  sort_order = pos 1;
  type_of = "product";
  description = "Part";
  qty_per_unit = amount;
  uom = "Nos";
  unit_price = amount;
  budgeted_price = amount;
  hsn_code = "";
  gst_percent = amount;
}

abbrev parts : MemDb
parts =
    put_table sub_items (part "i1" ∷ part "i2" ∷ [])
      (put_table main_boq_items (pump_item ∷ []) empty_db)

-- Two parts at 5, for 2 pumps.
priced_pump :
    app.find_record_by_id main_boq_items "m1" ((recalc_main_item_budgeted app "m1" parts).1)
    ≡ some (record pump_item { budgeted_price = record { bits = 20 } })
unfolding recalc_main_item_budgeted price_main_item store_main_price main_item_price sum_from
priced_pump = refl

handle_patch_sub_item-Unpatched_example :
    Unpatched app "i1"
      (part "i1")
      ((handle_patch_sub_item app "b1" "i1" (("uom", "Kg" ∷ []) ∷ []) parts).1)
handle_patch_sub_item-Unpatched_example =
    handle_patch_sub_item-Unpatched app (memory-Laws every june) "i1" (part "i1") "b1"
      (("uom", "Kg" ∷ []) ∷ []) parts refl
