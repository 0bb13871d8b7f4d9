-- ===== src/Shipment/Params.antt =====
-- services/dc_creation.go: what the wizards send and what comes back.
use project_tracker.Prelude.{ℕ, zero, suc, String, Bool, Option, none, some, List, [], ◌∷◌}
use project_tracker.Prelude.Int.{ℤ}
use project_tracker.Store.Schema.{Float64}
use project_tracker.Challans.{Transport}

pub record ShipmentItemParams : Type 0 where
  pub source_item_type : String
  pub source_item_id : String
  pub rate : Float64
  pub tax_percentage : Float64
  pub serial_tracking : String
  pub quantities : List ℤ
  pub total_qty : ℤ
  pub serials : List String

pub record ShipmentParams : Type 0 where
  pub project_id : String
  pub template_id : String
  pub challan_date : String
  pub transport : Transport
  pub reverse_charge : Bool
  pub bill_from_id : String
  pub dispatch_from_id : String
  pub bill_to_id : String
  pub ship_to_ids : List String
  pub tax_type : String
  pub items : List ShipmentItemParams

pub record ShipmentResult : Type 0 where
  pub shipment_group_id : String
  pub transit_dc_id : String
  pub transit_dc_number : String
  pub official_dc_ids : List String
  pub official_dc_nums : List String

-- The fields of `TransferDCParams` that `ShipmentParams` has too, and the hub.
pub record TransferDcParams : Type 0 where
  pub shipment : ShipmentParams
  pub hub_address_id : String

pub record TransferDcResult : Type 0 where
  pub dc_id : String
  pub dc_number : String

-- `item.Quantities[destIdx]`, where an index past the end is skipped by the callers.
unfoldable pub quantity_at : ℕ → List ℤ → Option ℤ
quantity_at i [] = none
quantity_at zero (q ∷ qs) = some q
quantity_at (suc i) (q ∷ qs) = quantity_at i qs
