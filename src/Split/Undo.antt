-- ===== src/Split/Undo.antt =====
-- `UndoSplit` of services/dc_split.go: a split is taken back while its group is a draft.
use project_tracker.Prelude.{String, false, not, ◌==◌, ◌&&◌, if◌then◌else◌}
use project_tracker.Prelude.Int.{ℤ, pos, ◌-ℤ◌, ltb_ℤ, eqb_ℤ}
use project_tracker.Prelude.Exec.{Exec, ◌>>=◌, ◌>>◌, throw_if, gets, or_throw, ignore, for_each}
use project_tracker.Store.Schema.{
  DcStatus, DeliveryChallan, DcLineItem, TransferDc, ShipmentGroup, TransferDcSplit,
  delivery_challans, transfer_dcs, transfer_dc_destinations, transfer_dc_splits, dc_line_items,
  serial_numbers, shipment_groups, dc_transit_details,
}
use project_tracker.Store.App.{App}
use project_tracker.Store.Status.{is_draft_group, or_empty}
use project_tracker.Services.{
  Error, split_not_found, transfer_metadata_not_found, parent_not_found, group_not_found,
  split_group_issued,
}
use project_tracker.Split.Params.{progress_status}

-- Step 9: one split less, but not below zero.
unfoldable pub one_split_less : ℤ → ℤ
one_split_less n = if ltb_ℤ (pos 0) n then n -ℤ pos 1 else n

-- Step 10: the parent's status.
unfoldable pub status_after_undo : ℤ → ℤ → DcStatus
unfolding progress_status
status_after_undo num_split num_dest =
    if eqb_ℤ num_split (pos 0) then DcStatus.issued else progress_status num_split num_dest

module _ (app : App) where
  open app use {Db, find_record_by_id, find_records_by_filter, save, delete}

  -- Step 5
  unfoldable pub reset_destinations : String → String → Exec Db Error (Unit {0})
  unfolding for_each
  reset_destinations transfer_id group_id = do
    found ← gets (
        find_records_by_filter transfer_dc_destinations
          (λ d. d.transfer_dc == transfer_id && d.split_group == group_id) "" 0)
    for_each (or_empty found) (λ d.
        ignore (save transfer_dc_destinations (record d { is_split = false; split_group = "" })))

  -- A line item with its serial numbers.
  unfoldable pub delete_line_item : DcLineItem → Exec Db Error (Unit {0})
  unfolding for_each
  delete_line_item li = do
    serials ← gets (find_records_by_filter serial_numbers (λ s. s.line_item == li.id) "" 0)
    for_each (or_empty serials) (λ s. ignore (delete serial_numbers s.id))
    ignore (delete dc_line_items li.id)

  -- The transit details of a challan.
  unfoldable pub delete_transit_details : String → Exec Db Error (Unit {0})
  unfolding for_each
  delete_transit_details dc_id = do
    details ← gets (find_records_by_filter dc_transit_details (λ t. t.dc == dc_id) "" 0)
    for_each (or_empty details) (λ t. ignore (delete dc_transit_details t.id))

  unfoldable pub delete_line_items : String → Exec Db Error (Unit {0})
  unfolding for_each
  delete_line_items dc_id = do
    items ← gets (find_records_by_filter dc_line_items (λ li. li.dc == dc_id) "" 0)
    for_each (or_empty items) delete_line_item

  -- A round of step 6: a child challan with all that hangs on it.
  unfoldable pub delete_child : DeliveryChallan → Exec Db Error (Unit {0})
  delete_child dc = do
    delete_line_items dc.id
    delete_transit_details dc.id
    ignore (delete delivery_challans dc.id)

  unfoldable pub delete_children : String → Exec Db Error (Unit {0})
  unfolding for_each
  delete_children group_id = do
    dcs ← gets (find_records_by_filter delivery_challans (λ dc. dc.shipment_group == group_id) "" 0)
    for_each (or_empty dcs) delete_child

  -- Steps 9 and 10
  unfoldable pub record_undo : TransferDc → DeliveryChallan → Exec Db Error (Unit {0})
  record_undo transfer parent = do
    let num_split = one_split_less transfer.num_split
    ignore (save transfer_dcs (record transfer { num_split = num_split }))
    ignore (
        save delivery_challans
          (record parent { status = status_after_undo num_split transfer.num_destinations }))

  -- Steps 5 to 10
  unfoldable pub perform_undo :
      TransferDcSplit → TransferDc → DeliveryChallan → ShipmentGroup → Exec Db Error (Unit {0})
  perform_undo split transfer parent sg = do
    reset_destinations split.transfer_dc split.shipment_group
    delete_children split.shipment_group
    ignore (delete transfer_dc_splits split.id)
    ignore (delete shipment_groups sg.id)
    record_undo transfer parent

  -- `UndoSplit`
  unfoldable pub undo_split : String → Exec Db Error (Unit {0})
  undo_split split_id = do
    s ← gets (find_record_by_id transfer_dc_splits split_id)
    split ← or_throw split_not_found s
    t ← gets (find_record_by_id transfer_dcs split.transfer_dc)
    transfer ← or_throw transfer_metadata_not_found t
    p ← gets (find_record_by_id delivery_challans transfer.dc)
    parent ← or_throw parent_not_found p
    g ← gets (find_record_by_id shipment_groups split.shipment_group)
    sg ← or_throw group_not_found g
    throw_if (not (is_draft_group sg.status)) (split_group_issued sg.status)
    perform_undo split transfer parent sg
