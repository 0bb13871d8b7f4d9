-- ===== src/Shipment/Transfer.antt =====
-- `CreateTransferDC` of services/dc_creation.go: a transfer challan with its plan of destinations.
use project_tracker.Prelude.{
  ℕ, suc, String, false, ◌==◌, ◌&&◌, if◌then◌else◌, none, some, List, [], ◌∷◌, length,
}
use project_tracker.Prelude.Int.{pos, eqb_ℤ}
use project_tracker.Prelude.Exec.{Exec, ◌>>=◌, ◌>>◌, pure, gets, ignore, wrap_err}
use project_tracker.Store.Schema.{
  DcType, DeliveryChallan, TransferDc, delivery_challans, transfer_dcs, transfer_dc_destinations,
  transfer_dc_dest_quantities, dc_transit_details,
}
use project_tracker.Store.App.{App}
use project_tracker.Services.{Error, number_failed}
use project_tracker.Numbering.Sequence.{next_doc_number}
use project_tracker.Challans.{
  new_challan, Transport, require_collection, create, vehicle_number, has_transport, transit_detail,
}
use project_tracker.Shipment.Params.{
  ShipmentItemParams, ShipmentParams, TransferDcParams, TransferDcResult, quantity_at,
}
use project_tracker.Shipment.Items.{first_ship_to, form_date, create_priced_items}
use project_tracker.Shipment.Direct.{form_header}

-- Step 4: the plan's record; all destinations of the form are counted.
unfoldable pub new_transfer : TransferDcParams → String → String → TransferDc
new_transfer params dc_id vehicle = record {
  id = "";
  dc = dc_id;
  hub_address = params.hub_address_id;
  template = params.shipment.template_id;
  tax_type = params.shipment.tax_type;
  reverse_charge = params.shipment.reverse_charge;
  transporter = params.shipment.transport.transporter_id;
  vehicle_number = vehicle;
  eway_bill_number = params.shipment.transport.eway_bill_number;
  docket_number = params.shipment.transport.docket_number;
  num_destinations = pos (length params.shipment.ship_to_ids);
  num_split = pos 0;
}

module _ (app : App) where
  open app use {Db, has_collection, save}

  -- Steps 1 and 2
  unfoldable pub create_transfer_challan : ShipmentParams → Exec Db Error DeliveryChallan
  create_transfer_challan params = do
    number ←
        wrap_err (number_failed "stdc")
          (next_doc_number app params.project_id "stdc" (form_date app params.challan_date))
    require_collection app delivery_challans
    create app delivery_challans (
        new_challan (form_header params "") DcType.transfer number
          (first_ship_to params.ship_to_ids))

  -- The quantities of one destination.
  unfoldable pub plan_quantities : String → ℕ → List ShipmentItemParams → Exec Db Error (Unit {0})
  plan_quantities dest_id dest [] = pure tt
  plan_quantities dest_id dest (item ∷ items) =
      let rest = plan_quantities dest_id dest items in
      elim (quantity_at dest item.quantities) [
        | none ↦ rest
        | some q ↦
            if eqb_ℤ q (pos 0)
            then rest
            else create app transfer_dc_dest_quantities (record {
              id = "";
              destination = dest_id;
              source_item_type = item.source_item_type;
              source_item_id = item.source_item_id;
              quantity = q;
            })
              >> rest
      ]

  -- The destinations from index `dest` on; a blank one is passed over.
  unfoldable pub plan_from :
      String → List ShipmentItemParams → ℕ → List String → Exec Db Error (Unit {0})
  plan_from transfer_id items dest [] = pure tt
  plan_from transfer_id items dest (ship_to ∷ rest) =
      let others = plan_from transfer_id items (suc dest) rest in
      if ship_to == ""
      then others
      else create app transfer_dc_destinations (record {
        id = "";
        transfer_dc = transfer_id;
        ship_to_address = ship_to;
        split_group = "";
        is_split = false;
      })
        >>= λ made. plan_quantities made.id dest items >> others

  -- Step 5
  unfoldable pub create_plan : String → ShipmentParams → Exec Db Error (Unit {0})
  unfolding plan_from
  create_plan transfer_id params = do
    require_collection app transfer_dc_destinations
    require_collection app transfer_dc_dest_quantities
    plan_from transfer_id params.items 0 params.ship_to_ids

  -- Step 6: an error of this save is dropped.
  unfoldable pub note_transport : String → String → Transport → Exec Db Error (Unit {0})
  note_transport dc_id vehicle t = do
    known ← gets (has_collection dc_transit_details)
    if has_transport app t && known
        then ignore (save dc_transit_details (transit_detail app dc_id vehicle t))
        else pure tt

  -- `CreateTransferDC`
  unfoldable pub create_transfer_dc : TransferDcParams → Exec Db Error TransferDcResult
  create_transfer_dc params = do
    dc ← create_transfer_challan params.shipment
    create_priced_items app params.shipment.project_id dc.id params.shipment.items
    require_collection app transfer_dcs
    vehicle ← gets (vehicle_number app params.shipment.transport.vehicle_id)
    transfer ← create app transfer_dcs (new_transfer params dc.id vehicle)
    create_plan transfer.id params.shipment
    note_transport dc.id vehicle params.shipment.transport
    pure (record { dc_id = dc.id; dc_number = dc.dc_number })
