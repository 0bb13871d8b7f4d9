-- ===== src/Split/Create.antt =====
-- `CreateSplit` of services/dc_split.go: a child shipment group for some of the destinations of an
-- issued transfer challan.
use project_tracker.Prelude.{◌==◌, map}
use project_tracker.Prelude.Exec.{Exec, ◌>>=◌, ◌>>◌, pure, gets, or_throw}
use project_tracker.Store.Schema.{DeliveryChallan, TransferDc, dc_line_items}
use project_tracker.Store.App.{App}
use project_tracker.Services.{Error, fetch_parent_items_failed}
use project_tracker.Split.Params.{SplitParams, SplitResult}
use project_tracker.Split.Check.{find_transfer, find_metadata, check_destinations}
use project_tracker.Split.Plan.{item_infos, create_child_group}
use project_tracker.Split.Write.{
  create_transit, create_transit_items, create_transport, create_officials,
}
use project_tracker.Split.Finish.{record_split, mark_split, record_progress}

module _ (app : App) where
  open app use {Db, has_collection, find_record_by_id, find_records_by_filter, save}

  -- Steps 4 to 16, for a challan and destinations that have passed the checks.
  unfoldable pub perform_split :
      SplitParams → DeliveryChallan → TransferDc → Exec Db Error SplitResult
  perform_split params dc transfer = do
    let dests = params.destination_ids
    listed ←
        gets (
          find_records_by_filter dc_line_items (λ li. li.dc == params.transfer_dc_id) "line_order"
            0)
    parents ← or_throw fetch_parent_items_failed listed
    infos ← gets (λ db. item_infos app db dests parents)
    sg ← create_child_group app dc transfer dests
    transit ← create_transit app dc sg dests
    create_transit_items app dc.project transit.id params.serial_assignments infos
    create_transport app transit.id params.transport
    officials ← create_officials app dc sg infos dests
    split_id ← record_split app transfer sg
    mark_split app sg.id dests
    record_progress app dc transfer
    pure (record {
      split_id = split_id;
      shipment_group_id = sg.id;
      transit_dc_id = transit.id;
      transit_dc_number = transit.dc_number;
      official_dc_ids = map (λ o. o.0) officials;
      official_dc_nums = map (λ o. o.1) officials;
    })

  -- `CreateSplit`
  unfoldable pub create_split : SplitParams → Exec Db Error SplitResult
  create_split params = do
    dc ← find_transfer app params.transfer_dc_id
    transfer ← find_metadata app params.transfer_dc_id
    check_destinations app transfer.id params.destination_ids
    perform_split params dc transfer
