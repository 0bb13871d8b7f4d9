-- ===== src/Items/Patch.antt =====
-- handlers/items.go: changes to single fields of an item. A form maps each name to its values; the
-- loop over it skips the names that are no field and the numbers that cannot be read. The answer
-- with the new price is left out.
use project_tracker.Prelude.{
  String, ◌==◌, ◌||◌, Bool, true, false, if◌then◌else◌, Option, none, some, [], ◌∷◌,
}
use project_tracker.Prelude.Exec.{Exec, ◌>>=◌, ◌>>◌, pure, gets, or_throw, throw_if, attempt}
use project_tracker.Store.Schema.{
  Float64, MainBoqItem, SubItem, SubSubItem, main_boq_items, sub_items, sub_sub_items,
}
use project_tracker.Store.App.{App}
use project_tracker.Services.{Error, missing_id, record_not_found, save_failed, nil_record}
use project_tracker.Shipment.Form.{Form}
use project_tracker.Items.{recalc_sub_item_budgeted, recalc_main_item_budgeted}

-- The loop over the form: the item as changed so far, and whether any field was set.
unfoldable pub patch_fields :
    {R : Type 0} → (String → String → R → Option R) → Form → R → Bool → R × Bool
patch_fields set [] r updated = (r, updated)
patch_fields set ((key, []) ∷ form) r updated = patch_fields set form r updated
patch_fields set ((key, v ∷ vs) ∷ form) r updated = elim (set key v r) [
  | none ↦ patch_fields set form r updated
  | some s ↦ patch_fields set form s true
]

-- A number field is set only if the text is a number.
abbrev pub with_number : {R : Type 0} → (Float64 → R) → Option Float64 → Option R
with_number f none = none
with_number f (some x) = some (f x)

module _ (app : App) where
  open app use {Db, find_record_by_id, save, parse_float, float_mul}

  -- The cases of `HandlePatchMainItem`.
  unfoldable pub set_main_field : String → String → MainBoqItem → Option MainBoqItem
  set_main_field key val r =
      if key == "description"
      then some (record r { description = val })
      else if key == "qty"
      then with_number (λ x. record r { qty = x }) (parse_float val)
      else if key == "uom"
      then some (record r { uom = val })
      else if key == "quoted_price"
      then with_number (λ x. record r { quoted_price = x }) (parse_float val)
      else if key == "budgeted_price"
      then with_number (λ x. record r { budgeted_price = x }) (parse_float val)
      else if key == "hsn_code"
      then some (record r { hsn_code = val })
      else if key == "gst_percent"
      then with_number (λ x. record r { gst_percent = x }) (parse_float val)
      else none

  -- `HandlePatchMainItem`
  unfoldable pub handle_patch_main_item :
      (boq_id item_id : String) → Form → Exec Db Error (Unit {0})
  handle_patch_main_item boq_id item_id form = do
    throw_if (boq_id == "" || item_id == "") missing_id
    found ← gets (find_record_by_id main_boq_items item_id)
    mi ← or_throw (record_not_found main_boq_items) found
    let patched = patch_fields set_main_field form mi false
    if patched.1
        then attempt (save_failed main_boq_items) (save main_boq_items patched.0) >> pure tt
        else pure tt

  -- The cases of `HandlePatchSubItem`.
  unfoldable pub set_sub_field : String → String → SubItem → Option SubItem
  set_sub_field key val r =
      if key == "type"
      then some (record r { type_of = val })
      else if key == "description"
      then some (record r { description = val })
      else if key == "qty_per_unit"
      then with_number (λ x. record r { qty_per_unit = x }) (parse_float val)
      else if key == "uom"
      then some (record r { uom = val })
      else if key == "unit_price"
      then with_number (λ x. record r { unit_price = x }) (parse_float val)
      else if key == "hsn_code"
      then some (record r { hsn_code = val })
      else if key == "gst_percent"
      then with_number (λ x. record r { gst_percent = x }) (parse_float val)
      else none

  -- The parent's price, after the item has been read again.
  unfoldable pub price_parent : String → Exec Db Error (Unit {0})
  price_parent sub_item_id = do
    again ← gets (find_record_by_id sub_items sub_item_id)
    reloaded ← or_throw nil_record again
    recalc_main_item_budgeted app reloaded.main_item

  -- `HandlePatchSubItem`: prices are computed again from what is stored.
  unfoldable pub handle_patch_sub_item :
      (boq_id sub_item_id : String) → Form → Exec Db Error (Unit {0})
  handle_patch_sub_item boq_id sub_item_id form = do
    throw_if (boq_id == "" || sub_item_id == "") missing_id
    found ← gets (find_record_by_id sub_items sub_item_id)
    si ← or_throw (record_not_found sub_items) found
    let patched = patch_fields set_sub_field form si false
    if patched.1
        then recalc_sub_item_budgeted app sub_item_id >> price_parent sub_item_id
        else pure tt

  -- The cases of `HandlePatchSubSubItem`.
  unfoldable pub set_sub_sub_field : String → String → SubSubItem → Option SubSubItem
  set_sub_sub_field key val r =
      if key == "type"
      then some (record r { type_of = val })
      else if key == "description"
      then some (record r { description = val })
      else if key == "qty_per_unit"
      then with_number (λ x. record r { qty_per_unit = x }) (parse_float val)
      else if key == "uom"
      then some (record r { uom = val })
      else if key == "unit_price"
      then with_number (λ x. record r { unit_price = x }) (parse_float val)
      else if key == "hsn_code"
      then some (record r { hsn_code = val })
      else if key == "gst_percent"
      then with_number (λ x. record r { gst_percent = x }) (parse_float val)
      else none

  -- `HandlePatchSubSubItem`
  unfoldable pub handle_patch_sub_sub_item :
      (boq_id sub_sub_item_id : String) → Form → Exec Db Error (Unit {0})
  handle_patch_sub_sub_item boq_id sub_sub_item_id form = do
    throw_if (boq_id == "" || sub_sub_item_id == "") missing_id
    found ← gets (find_record_by_id sub_sub_items sub_sub_item_id)
    ssi ← or_throw (record_not_found sub_sub_items) found
    let patched = patch_fields set_sub_sub_field form ssi false
    let priced = patched.0
    let budgeted = float_mul priced.qty_per_unit priced.unit_price
    if patched.1
        then (do
          attempt (save_failed sub_sub_items)
              (save sub_sub_items (record priced { budgeted_price = budgeted }))
          recalc_sub_item_budgeted app priced.sub_item
          parent ← gets (find_record_by_id sub_items priced.sub_item)
          elim parent [ none ↦ pure tt | some si ↦ recalc_main_item_budgeted app si.main_item ])
        else pure tt
