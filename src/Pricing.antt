-- ===== src/Pricing.antt =====
-- services/pricing.go and the calculations of services/po_pricing.go, on `float64` with the
-- operations of App.
use project_tracker.Prelude.{not, if◌then◌else◌, List, [], ◌∷◌}
use project_tracker.Prelude.Int.{pos}
use project_tracker.Store.Schema.{Float64}
use project_tracker.Store.App.{App}

-- `BOQTotals`
pub record BoqTotals : Type 0 where
  pub total_quoted : Float64
  pub total_budgeted : Float64
  pub margin : Float64
  pub margin_percent : Float64

-- `MainItemForTotals`
pub record MainItemForTotals : Type 0 where
  pub qty : Float64
  pub quoted_price : Float64
  pub budgeted_price : Float64

-- `POLineItemCalc`
pub record PoLineItemCalc : Type 0 where
  pub rate : Float64
  pub qty : Float64
  pub gst_percent : Float64
  pub before_gst : Float64
  pub gst_amount : Float64
  pub total : Float64

-- `POTotals`
pub record PoTotals : Type 0 where
  pub total_before_tax : Float64
  pub igst_percent : Float64
  pub igst_amount : Float64
  pub round_off : Float64
  pub grand_total : Float64

module _ (app : App) where
  open app use {
    float_add, float_sub, float_mul, float_div, float_div_100, float_lt, float_eq, float_round,
    float_of_int, float_zero,
  }

  -- `for _, p := range prices { sum += p }`
  unfoldable pub sum_from : Float64 → List Float64 → Float64
  sum_from sum [] = sum
  sum_from sum (p ∷ prices) = sum_from (float_add sum p) prices

  -- `CalcSubSubItemBudgeted`
  unfoldable pub calc_sub_sub_item_budgeted : (qty_per_unit unit_price : Float64) → Float64
  calc_sub_sub_item_budgeted qty_per_unit unit_price = float_mul qty_per_unit unit_price

  -- `CalcSubItemBudgeted`
  unfoldable pub calc_sub_item_budgeted :
      List Float64 → (qty_per_unit unit_price : Float64) → Float64
  unfolding sum_from
  calc_sub_item_budgeted [] qty_per_unit unit_price = float_mul qty_per_unit unit_price
  calc_sub_item_budgeted (p ∷ prices) qty_per_unit unit_price = sum_from float_zero (p ∷ prices)

  -- `CalcMainItemBudgeted`
  unfoldable pub calc_main_item_budgeted : List Float64 → (manual_budgeted : Float64) → Float64
  unfolding sum_from
  calc_main_item_budgeted [] manual_budgeted = manual_budgeted
  calc_main_item_budgeted (p ∷ prices) manual_budgeted = sum_from float_zero (p ∷ prices)

  -- `CalcMainItemTotal`
  unfoldable pub calc_main_item_total : (budgeted_price qty : Float64) → Float64
  calc_main_item_total budgeted_price qty = float_mul budgeted_price qty

  -- The two sums of the loop of `CalcBOQTotals`.
  unfoldable pub quoted_from : Float64 → List MainItemForTotals → Float64
  quoted_from sum [] = sum
  quoted_from sum (item ∷ items) =
      quoted_from (float_add sum (float_mul item.quoted_price item.qty)) items

  unfoldable pub budgeted_from : Float64 → List MainItemForTotals → Float64
  budgeted_from sum [] = sum
  budgeted_from sum (item ∷ items) = budgeted_from (float_add sum item.budgeted_price) items

  -- `CalcBOQTotals`
  unfoldable pub calc_boq_totals : List MainItemForTotals → BoqTotals
  unfolding quoted_from budgeted_from
  calc_boq_totals items =
      let quoted = quoted_from float_zero items in
      let budgeted = budgeted_from float_zero items in
      let left = float_sub quoted budgeted in
      record {
        total_quoted = quoted;
        total_budgeted = budgeted;
        margin = left;
        margin_percent =
            if not (float_eq quoted float_zero)
            then float_mul (float_div left quoted) (float_of_int (pos 100))
            else float_zero;
      }

  -- `CalcPOLineItem`
  unfoldable pub calc_po_line_item : (rate qty gst_percent : Float64) → PoLineItemCalc
  calc_po_line_item rate qty gst_percent =
      let before_gst = float_mul rate qty in
      let gst_amount = float_div_100 (float_mul before_gst gst_percent) in
      record {
        rate = rate;
        qty = qty;
        gst_percent = gst_percent;
        before_gst = before_gst;
        gst_amount = gst_amount;
        total = float_add before_gst gst_amount;
      }

  -- `calcRoundOff`
  unfoldable pub calc_round_off : Float64 → Float64
  calc_round_off amount = float_sub (float_round amount) amount

  -- The two sums of the loop of `CalcPOTotals`.
  unfoldable pub before_tax_from : Float64 → List PoLineItemCalc → Float64
  before_tax_from sum [] = sum
  before_tax_from sum (item ∷ items) = before_tax_from (float_add sum item.before_gst) items

  unfoldable pub gst_from : Float64 → List PoLineItemCalc → Float64
  gst_from sum [] = sum
  gst_from sum (item ∷ items) = gst_from (float_add sum item.gst_amount) items

  -- `CalcPOTotals`
  unfoldable pub calc_po_totals : List PoLineItemCalc → PoTotals
  unfolding before_tax_from gst_from calc_round_off
  calc_po_totals items =
      let before = before_tax_from float_zero items in
      let gst = gst_from float_zero items in
      let subtotal = float_add before gst in
      let rounding = calc_round_off subtotal in
      record {
        total_before_tax = before;
        igst_percent =
            if float_lt float_zero before
            then float_mul (float_div gst before) (float_of_int (pos 100))
            else float_zero;
        igst_amount = gst;
        round_off = rounding;
        grand_total = float_add subtotal rounding;
      }
