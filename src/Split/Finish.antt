-- ===== src/Split/Finish.antt =====
-- `CreateSplit` of services/dc_split.go, steps 13 to 16: the split's record and the progress.
use project_tracker.Prelude.{String, true, none, some, List}
use project_tracker.Prelude.Int.{pos, ◌+ℤ◌}
use project_tracker.Prelude.Exec.{Exec, ◌>>=◌, ◌>>◌, pure, gets, ignore, for_each}
use project_tracker.Store.Schema.{
  DeliveryChallan, TransferDc, ShipmentGroup, delivery_challans, transfer_dcs,
  transfer_dc_destinations, transfer_dc_splits, shipment_groups,
}
use project_tracker.Store.App.{App}
use project_tracker.Services.{Error}
use project_tracker.Challans.{require_collection, create}
use project_tracker.Split.Params.{progress_status}

module _ (app : App) where
  open app use {Db, has_collection, find_record_by_id, find_records_by_filter, save}

  -- Step 13: the record of the split, and the group's link to it.
  unfoldable pub record_split : TransferDc → ShipmentGroup → Exec Db Error String
  record_split transfer sg = do
    require_collection app transfer_dc_splits
    split ← create app transfer_dc_splits (record {
      id = "";
      transfer_dc = transfer.id;
      shipment_group = sg.id;
      split_number = transfer.num_split +ℤ pos 1;
    })
    ignore (save shipment_groups (record sg { split = split.id }))
    pure split.id

  -- Step 14
  unfoldable pub mark_split : String → List String → Exec Db Error (Unit {0})
  unfolding for_each
  mark_split group_id dests = for_each dests (λ dest_id.
      gets (find_record_by_id transfer_dc_destinations dest_id) >>= λ found. elim found [
        | none ↦ pure tt
        | some dest ↦ ignore (
            save transfer_dc_destinations (record dest { is_split = true; split_group = group_id }))
      ])

  -- Steps 15 and 16
  unfoldable pub record_progress : DeliveryChallan → TransferDc → Exec Db Error (Unit {0})
  record_progress dc transfer = do
    let new_num_split = transfer.num_split +ℤ pos 1
    ignore (save transfer_dcs (record transfer { num_split = new_num_split }))
    ignore (
        save delivery_challans
          (record dc { status = progress_status new_num_split transfer.num_destinations }))
