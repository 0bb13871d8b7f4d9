-- ===== src/Shipment/Items.antt =====
-- services/dc_creation.go: the parts that `CreateDirectShipment` and `CreateTransferDC` have alike.
use project_tracker.Prelude.{
  ℕ, suc, ◌+◌, String, Bool, true, false, if◌then◌else◌, none, some, List, [], ◌∷◌,
}
use project_tracker.Prelude.Int.{pos, ltb_ℤ, eqb_ℤ}
use project_tracker.Prelude.Exec.{Exec, ◌>>=◌, ◌>>◌, pure}
use project_tracker.Store.Schema.{dc_line_items, serial_numbers}
use project_tracker.Store.App.{App, Date}
use project_tracker.Services.{Error}
use project_tracker.Challans.{require_collection, create, priced_item, plain_item, save_serials}
use project_tracker.Shipment.Params.{ShipmentItemParams, quantity_at}

-- The first destination, or none.
unfoldable pub first_ship_to : List String → String
first_ship_to [] = ""
first_ship_to (s ∷ rest) = s

-- Is there a positive quantity of an item for the destination?
unfoldable pub has_qty : ℕ → List ShipmentItemParams → Bool
has_qty i [] = false
has_qty i (item ∷ items) =
    let rest = has_qty i items in
    elim (quantity_at i item.quantities) [
      | none ↦ rest
      | some q ↦ if ltb_ℤ (pos 0) q then true else rest
    ]

module _ (app : App) where
  open app use {Db}

  -- The date of the form, or today if it does not parse.
  unfoldable pub form_date : String → Date
  form_date s = elim (app.parse_date s) [ none ↦ app.today | some t ↦ t ]

  -- A round of the loop over the items: one with no quantity is passed over.
  unfoldable pub create_priced : String → String → ℕ → ShipmentItemParams → Exec Db Error (Unit {0})
  create_priced project dc_id i item =
      if eqb_ℤ item.total_qty (pos 0)
      then pure tt
      else create app dc_line_items (
          priced_item app dc_id item.source_item_type item.source_item_id item.total_qty item.rate
            item.tax_percentage (pos (i + 1)))
        >>= λ line. save_serials app project line.id item.serials

  unfoldable pub create_priced_from :
      String → String → ℕ → List ShipmentItemParams → Exec Db Error (Unit {0})
  create_priced_from project dc_id i [] = pure tt
  create_priced_from project dc_id i (item ∷ items) =
      create_priced project dc_id i item >> create_priced_from project dc_id (suc i) items

  -- The priced line items of a challan, numbered from 1, with their serials.
  unfoldable pub create_priced_items :
      String → String → List ShipmentItemParams → Exec Db Error (Unit {0})
  unfolding create_priced_from create_priced
  create_priced_items project dc_id items = do
    require_collection app dc_line_items
    require_collection app serial_numbers
    create_priced_from project dc_id 0 items

  -- The line items of an official challan; `i` counts the items and `dest` is the destination.
  unfoldable pub create_plain_from :
      String → ℕ → ℕ → List ShipmentItemParams → Exec Db Error (Unit {0})
  create_plain_from odc_id dest i [] = pure tt
  create_plain_from odc_id dest i (item ∷ items) =
      let rest = create_plain_from odc_id dest (suc i) items in
      elim (quantity_at dest item.quantities) [
        | none ↦ rest
        | some q ↦
            if eqb_ℤ q (pos 0)
            then rest
            else create app dc_line_items
                (plain_item app odc_id item.source_item_type item.source_item_id q (pos (i + 1)))
              >> rest
      ]
