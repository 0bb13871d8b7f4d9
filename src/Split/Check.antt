-- ===== src/Split/Check.antt =====
-- `CreateSplit` of services/dc_split.go, steps 1 to 3: what must hold before anything is written.
use project_tracker.Prelude.{String, not, ◌==◌, ◌||◌, Option, none, some, List, [], ◌∷◌}
use project_tracker.Prelude.Exec.{Exec, ◌>>=◌, ◌>>◌, pure, throw_if, gets, or_throw, for_each}
use project_tracker.Store.Schema.{
  DeliveryChallan, TransferDc, delivery_challans, transfer_dcs, transfer_dc_destinations,
}
use project_tracker.Store.App.{App}
use project_tracker.Store.Status.{is_issued, is_splitting, is_transfer, or_empty}
use project_tracker.Services.{
  Error, dc_not_found, not_splittable, not_transfer, transfer_metadata_not_found,
  destination_not_found, destination_already_split, destination_foreign,
}

module _ (app : App) where
  open app use {Db, has_collection, find_record_by_id, find_records_by_filter, save}

  -- Step 1: the challan is a transfer that has been issued.
  unfoldable pub find_transfer : String → Exec Db Error DeliveryChallan
  find_transfer dc_id = do
    found ← gets (find_record_by_id delivery_challans dc_id)
    dc ← or_throw dc_not_found found
    throw_if (not (is_issued dc.status || is_splitting dc.status)) (not_splittable dc.status)
    throw_if (not (is_transfer dc.dc_type)) not_transfer
    pure dc

  -- Step 2
  unfoldable pub first_metadata : List TransferDc → Option TransferDc
  first_metadata [] = none
  first_metadata (t ∷ ts) = some t

  unfoldable pub find_metadata : String → Exec Db Error TransferDc
  find_metadata dc_id = do
    records ← gets (find_records_by_filter transfer_dcs (λ t. t.dc == dc_id) "" 1)
    or_throw transfer_metadata_not_found (first_metadata (or_empty records))

  -- Step 3: no destination is split already, and all of them belong to the transfer.
  unfoldable pub check_destination : String → String → Exec Db Error (Unit {0})
  check_destination transfer_id dest_id = do
    found ← gets (find_record_by_id transfer_dc_destinations dest_id)
    dest ← or_throw (destination_not_found dest_id) found
    throw_if dest.is_split (destination_already_split dest_id)
    throw_if (not (dest.transfer_dc == transfer_id)) (destination_foreign dest_id)

  unfoldable pub check_destinations : String → List String → Exec Db Error (Unit {0})
  unfolding for_each
  check_destinations transfer_id dests = for_each dests (check_destination transfer_id)
