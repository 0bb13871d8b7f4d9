-- ===== src/Delete.antt =====
-- handlers/dc_delete.go: the removal of draft challans. The answer to the browser (toasts and
-- redirects) is left out; the error stands for the toast's message.
pub mod Guarded
mod Tests
use project_tracker.Prelude.{
  String, Bool, true, false, not, ◌==◌, if◌then◌else◌, Option, none, some, List, [], ◌∷◌,
}
use project_tracker.Prelude.Exec.{
  Result, ok, err, Exec, ◌>>=◌, ◌>>◌, pure, throw_if, gets, or_throw, attempt, ignore, for_each,
}
use project_tracker.Store.Schema.{
  DeliveryChallan, ShipmentGroup, TransferDc, TransferDcDestination, delivery_challans,
  shipment_groups, transfer_dcs, transfer_dc_destinations, transfer_dc_dest_quantities,
}
use project_tracker.Store.App.{App}
use project_tracker.Store.Status.{is_draft, is_draft_group, is_transfer, or_empty}
use project_tracker.Services.{
  Error, dc_not_found, not_in_project, not_draft, group_not_found, group_not_draft, delete_failed,
}
use project_tracker.Split.Undo.{delete_line_items, delete_transit_details}

module _ (app : App) where
  open app use {Db, find_record_by_id, find_records_by_filter, delete}

  -- A round of the loop of `deleteShipmentGroup`.
  unfoldable pub delete_group_dc : DeliveryChallan → Exec Db Error (Unit {0})
  delete_group_dc dc = do
    delete_transit_details app dc.id
    delete_line_items app dc.id
    ignore (delete delivery_challans dc.id)

  unfoldable pub delete_group_dcs : String → Exec Db Error (Unit {0})
  unfolding for_each
  delete_group_dcs group_id = do
    dcs ← gets (find_records_by_filter delivery_challans (λ dc. dc.shipment_group == group_id) "" 0)
    for_each (or_empty dcs) delete_group_dc

  -- `deleteShipmentGroup`
  unfoldable pub delete_shipment_group : String → Exec Db Error (Unit {0})
  delete_shipment_group group_id = do
    found ← gets (find_record_by_id shipment_groups group_id)
    sg ← or_throw group_not_found found
    throw_if (not (is_draft_group sg.status)) group_not_draft
    delete_group_dcs group_id
    ignore (delete shipment_groups sg.id)

  -- A destination of the plan with its quantities.
  unfoldable pub delete_destination : TransferDcDestination → Exec Db Error (Unit {0})
  unfolding for_each
  delete_destination dest = do
    qtys ←
        gets
          (find_records_by_filter transfer_dc_dest_quantities (λ q. q.destination == dest.id) "" 0)
    for_each (or_empty qtys) (λ q. ignore (delete transfer_dc_dest_quantities q.id))
    ignore (delete transfer_dc_destinations dest.id)

  unfoldable pub delete_plan : TransferDc → Exec Db Error (Unit {0})
  unfolding for_each
  delete_plan transfer = do
    dests ←
        gets
          (find_records_by_filter transfer_dc_destinations (λ d. d.transfer_dc == transfer.id) "" 0)
    for_each (or_empty dests) delete_destination
    ignore (delete transfer_dcs transfer.id)

  unfoldable pub delete_plans : String → Exec Db Error (Unit {0})
  unfolding for_each
  delete_plans dc_id = do
    transfers ← gets (find_records_by_filter transfer_dcs (λ t. t.dc == dc_id) "" 0)
    for_each (or_empty transfers) delete_plan

  -- `deleteTransferDCMetadata`
  unfoldable pub delete_transfer_dc_metadata : String → Exec Db Error (Unit {0})
  delete_transfer_dc_metadata dc_id = do
    delete_plans dc_id
    delete_transit_details app dc_id
    delete_line_items app dc_id

  -- What `HandleDCDelete` does with a challan that may be deleted.
  unfoldable pub delete_draft : String → DeliveryChallan → Exec Db Error (Unit {0})
  delete_draft dc_id dc =
      if not (dc.shipment_group == "")
      then delete_shipment_group dc.shipment_group
      else (if is_transfer dc.dc_type then delete_transfer_dc_metadata dc_id else pure tt)
        >> attempt delete_failed (delete delivery_challans dc.id)

  -- `HandleDCDelete`
  unfoldable pub handle_dc_delete : String → String → Exec Db Error (Unit {0})
  handle_dc_delete project_id dc_id = do
    found ← gets (find_record_by_id delivery_challans dc_id)
    dc ← or_throw dc_not_found found
    throw_if (not (dc.project == project_id)) not_in_project
    throw_if (not (is_draft dc.status)) not_draft
    delete_draft dc_id dc
