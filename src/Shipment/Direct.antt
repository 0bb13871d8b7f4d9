-- ===== src/Shipment/Direct.antt =====
-- `CreateDirectShipment` of services/dc_creation.go: a shipment group with a transit challan and
-- an official challan for each destination.
use project_tracker.Prelude.{
  ℕ, suc, String, Bool, not, ◌==◌, ◌&&◌, if◌then◌else◌, List, [], ◌∷◌, map, length,
}
use project_tracker.Prelude.Int.{pos}
use project_tracker.Prelude.Exec.{Exec, ◌>>=◌, ◌>>◌, pure, gets, wrap_err}
use project_tracker.Store.Schema.{
  DcType, GroupStatus, DeliveryChallan, ShipmentGroup, shipment_groups, delivery_challans,
  dc_transit_details,
}
use project_tracker.Store.App.{App}
use project_tracker.Services.{Error, number_failed}
use project_tracker.Numbering.Sequence.{next_doc_number}
use project_tracker.Challans.{
  Header, new_challan, Transport, require_collection, create, vehicle_number, has_transport,
  transit_detail,
}
use project_tracker.Shipment.Params.{ShipmentItemParams, ShipmentParams, ShipmentResult}
use project_tracker.Shipment.Items.{
  first_ship_to, has_qty, form_date, create_priced_items, create_plain_from,
}

-- What all challans of the form share.
unfoldable pub form_header : ShipmentParams → String → Header
form_header params group_id = record {
  project = params.project_id;
  template = params.template_id;
  bill_from = params.bill_from_id;
  dispatch_from = params.dispatch_from_id;
  bill_to = params.bill_to_id;
  challan_date = params.challan_date;
  group = group_id;
}

-- Step 1: the group, still without an id.
unfoldable pub new_group : ShipmentParams → ShipmentGroup
new_group params = record {
  id = "";
  project = params.project_id;
  template = params.template_id;
  num_locations = pos (length params.ship_to_ids);
  tax_type = params.tax_type;
  reverse_charge = params.reverse_charge;
  status = GroupStatus.draft;
  transfer_dc = "";
  split = "";
}

module _ (app : App) where
  open app use {Db, has_collection}

  -- Steps 2 and 3: the transit challan, sent to the first destination.
  unfoldable pub create_transit_dc : ShipmentParams → String → Exec Db Error DeliveryChallan
  create_transit_dc params group_id = do
    number ←
        wrap_err (number_failed "tdc")
          (next_doc_number app params.project_id "tdc" (form_date app params.challan_date))
    require_collection app delivery_challans
    create app delivery_challans (
        new_challan (form_header params group_id) DcType.transit number
          (first_ship_to params.ship_to_ids))

  -- Step 5: an error of this save is returned.
  unfoldable pub create_transit_detail : String → Transport → Exec Db Error (Unit {0})
  create_transit_detail dc_id t = do
    known ← gets (has_collection dc_transit_details)
    vehicle ← gets (vehicle_number app t.vehicle_id)
    if has_transport app t && known
        then (create app dc_transit_details (transit_detail app dc_id vehicle t) >> pure tt)
        else pure tt

  -- A round of step 6: the id and number of an official challan.
  unfoldable pub create_official_dc :
      ShipmentParams → String → ℕ → String → Exec Db Error (String × String)
  create_official_dc params group_id dest ship_to = do
    number ←
        wrap_err (number_failed "odc")
          (next_doc_number app params.project_id "odc" (form_date app params.challan_date))
    odc ←
        create app delivery_challans
          (new_challan (form_header params group_id) DcType.official number ship_to)
    create_plain_from app odc.id dest 0 params.items
    pure (odc.id, number)

  -- Does the destination get a challan? Not if it is blank or has nothing to be sent.
  unfoldable pub is_served : List ShipmentItemParams → ℕ → String → Bool
  is_served items dest ship_to = not (ship_to == "") && has_qty dest items

  -- Step 6: the challans of the destinations from index `dest` on.
  unfoldable pub create_official_dcs :
      ShipmentParams → String → ℕ → List String → Exec Db Error (List (String × String))
  create_official_dcs params group_id dest [] = pure []
  create_official_dcs params group_id dest (ship_to ∷ rest) =
      let others = create_official_dcs params group_id (suc dest) rest in
      if is_served params.items dest ship_to
      then (create_official_dc params group_id dest ship_to >>= λ made.
          others >>= λ more. pure (made ∷ more))
      else others

  -- `CreateDirectShipment`
  unfoldable pub create_direct_shipment : ShipmentParams → Exec Db Error ShipmentResult
  create_direct_shipment params = do
    require_collection app shipment_groups
    sg ← create app shipment_groups (new_group params)
    transit ← create_transit_dc params sg.id
    create_priced_items app params.project_id transit.id params.items
    create_transit_detail transit.id params.transport
    officials ← create_official_dcs params sg.id 0 params.ship_to_ids
    pure (record {
      shipment_group_id = sg.id;
      transit_dc_id = transit.id;
      transit_dc_number = transit.dc_number;
      official_dc_ids = map (λ o. o.0) officials;
      official_dc_nums = map (λ o. o.1) officials;
    })
