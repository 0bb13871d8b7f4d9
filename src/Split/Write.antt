-- ===== src/Split/Write.antt =====
-- `CreateSplit` of services/dc_split.go, steps 8 to 12: the transit challan and the official ones.
use project_tracker.Prelude.{String, ◌&&◌, if◌then◌else◌, none, some, List, [], ◌∷◌, lookup}
use project_tracker.Prelude.Int.{pos, eqb_ℤ}
use project_tracker.Prelude.Exec.{Exec, ◌>>=◌, ◌>>◌, pure, gets, ignore, for_each, wrap_err}
use project_tracker.Store.Schema.{
  DcType, DeliveryChallan, ShipmentGroup, TransferDcDestination, delivery_challans,
  transfer_dc_destinations, dc_line_items, serial_numbers, dc_transit_details,
}
use project_tracker.Store.App.{App}
use project_tracker.Services.{Error, number_failed}
use project_tracker.Numbering.Sequence.{next_doc_number}
use project_tracker.Challans.{
  new_challan, Transport, require_collection, create, priced_item, plain_item, save_serials,
  vehicle_number, has_transport, transit_detail,
}
use project_tracker.Split.Params.{ItemQtyInfo, qty_at}
use project_tracker.Split.Plan.{doc_date, header_of, primary_address}

module _ (app : App) where
  open app use {Db, has_collection, find_record_by_id, find_records_by_filter, save}

  -- Steps 8 and 9
  unfoldable pub create_transit :
      DeliveryChallan → ShipmentGroup → List String → Exec Db Error DeliveryChallan
  create_transit dc sg dests = do
    number ← wrap_err (number_failed "tdc") (next_doc_number app dc.project "tdc" (doc_date app dc))
    require_collection app delivery_challans
    ship_to ← gets (primary_address app dests)
    create app delivery_challans (new_challan (header_of app dc sg) DcType.transit number ship_to)

  -- A round of step 10: the priced line item and the serials assigned to it.
  unfoldable pub create_transit_item :
      String → String → List (String × List String) → ItemQtyInfo → Exec Db Error (Unit {0})
  create_transit_item project transit_id assigned info = do
    item ← create app dc_line_items (
        priced_item app transit_id info.source_item_type info.source_item_id info.total_qty
          info.rate info.tax_percentage info.line_order)
    elim (lookup info.parent_line_id assigned) [
      | none ↦ pure tt
      | some serials ↦ save_serials app project item.id serials
    ]

  unfoldable pub create_transit_items :
      String → String → List (String × List String) → List ItemQtyInfo → Exec Db Error (Unit {0})
  unfolding for_each
  create_transit_items project transit_id assigned infos = do
    require_collection app dc_line_items
    require_collection app serial_numbers
    for_each infos (create_transit_item project transit_id assigned)

  -- Step 11: an error of this save is dropped.
  unfoldable pub create_transport : String → Transport → Exec Db Error (Unit {0})
  create_transport transit_id t = do
    known ← gets (has_collection dc_transit_details)
    vehicle ← gets (vehicle_number app t.vehicle_id)
    if has_transport app t && known
        then ignore (save dc_transit_details (transit_detail app transit_id vehicle t))
        else pure tt

  -- The inner loop of step 12.
  unfoldable pub create_official_item : String → String → ItemQtyInfo → Exec Db Error (Unit {0})
  create_official_item odc_id dest_id info =
      let qty = qty_at dest_id info.per_dest_qty in
      if eqb_ℤ qty (pos 0)
      then pure tt
      else (create app dc_line_items
            (plain_item app odc_id info.source_item_type info.source_item_id qty info.line_order)
          >> pure tt)

  -- One official challan, for a destination that was found.
  unfoldable pub create_official :
      DeliveryChallan
      → ShipmentGroup
      → List ItemQtyInfo
      → String
      → TransferDcDestination
      → Exec Db Error (String × String)
  unfolding for_each
  create_official dc sg infos dest_id dest = do
    number ← wrap_err (number_failed "odc") (next_doc_number app dc.project "odc" (doc_date app dc))
    odc ←
        create app delivery_challans
          (new_challan (header_of app dc sg) DcType.official number dest.ship_to_address)
    for_each infos (create_official_item odc.id dest_id)
    pure (odc.id, number)

  -- Step 12: the ids and numbers of the official challans; a destination not found is passed over.
  unfoldable pub create_officials :
      DeliveryChallan
      → ShipmentGroup
      → List ItemQtyInfo
      → List String
      → Exec Db Error (List (String × String))
  create_officials dc sg infos [] = pure []
  create_officials dc sg infos (dest_id ∷ dests) =
      let rest = create_officials dc sg infos dests in
      do
        found ← gets (find_record_by_id transfer_dc_destinations dest_id)
        elim found [
          | none ↦ rest
          | some dest ↦ create_official dc sg infos dest_id dest >>= λ made.
              rest >>= λ others. pure (made ∷ others)
        ]
