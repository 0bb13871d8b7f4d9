-- ===== src/Split/Tests.antt =====
-- Splitting and undoing, on a store in memory.
use project_tracker.Prelude.{refl, arith, [], ◌∷◌}
use project_tracker.Prelude.Int.{pos}
use project_tracker.Store.Schema.{
  DcStatus, DcType, DeliveryChallan, TransferDc, delivery_challans, transfer_dcs,
}
use project_tracker.Store.Memory.{MemDb, identified, stored, put_table}
use project_tracker.Store.Samples.{june, every, app, transfer_stock, challan, plan}
use project_tracker.Store.Memory.Lawful.{memory-Laws}
use project_tracker.Split.Params.{SplitParams}
use project_tracker.Split.Create.{create_split}
use project_tracker.Split.Undo.{undo_split, record_undo}
use project_tracker.Split.Finish.{record_progress}
use project_tracker.Split.RoundTrip.{
  SameProgress, SavesInto, part_way, more_split, progressed, record_undo-record_progress,
}
use project_tracker.Split.Guarded.{SplitGuarded, create_split-SplitGuarded}
use project_tracker.Split.Undone.{Undone, undo_split-Undone}

abbrev one_destination : SplitParams
one_destination = record {
  project_id = "p1";
  transfer_dc_id = "d3";
  destination_ids = "n1" ∷ [];
  transport = record {
    transporter_id = "";
    vehicle_id = "";
    eway_bill_number = "";
    docket_number = "";
  };
  serial_assignments = [];
}

create_split-SplitGuarded_example :
    SplitGuarded app one_destination transfer_stock
      (create_split app one_destination transfer_stock)
create_split-SplitGuarded_example =
    create_split-SplitGuarded app (memory-Laws every june) one_destination transfer_stock

undo_split-Undone_example : Undone app "y1" transfer_stock (undo_split app "y1" transfer_stock)
undo_split-Undone_example = undo_split-Undone app "y1" transfer_stock

abbrev part_split : DeliveryChallan
part_split = record (challan "d3" DcType.transfer "") { status = DcStatus.splitting }

abbrev part_stock : MemDb
part_stock = put_table delivery_challans (part_split ∷ []) transfer_stock

abbrev with_plan : TransferDc → MemDb → MemDb
with_plan t db = stored transfer_dcs (identified transfer_dcs t db) db

abbrev with_both : TransferDc → DeliveryChallan → MemDb → MemDb
with_both t d db =
    stored delivery_challans (identified delivery_challans d (with_plan t db)) (with_plan t db)

both_saved :
    (t : TransferDc) (d : DeliveryChallan) (db : MemDb) → SavesInto app t d db (with_both t d db)
both_saved t d db = (
  identified transfer_dcs t db,
  identified delivery_challans d (with_plan t db),
  with_plan t db,
  refl,
  refl,
)

abbrev progress_stock : MemDb
progress_stock =
    with_both (more_split app (plan (pos 1))) (progressed app part_split (plan (pos 1))) part_stock

record_undo-record_progress_example :
    SameProgress app part_stock
      (record_undo app
        (more_split app (plan (pos 1)))
        (progressed app part_split (plan (pos 1)))
        (record_progress app part_split (plan (pos 1)) part_stock).1).1
record_undo-record_progress_example =
    record_undo-record_progress app (memory-Laws every june) (plan (pos 1)) part_split 1 2 refl refl
      (omega arith) (part_way (omega arith) (omega arith)) part_stock progress_stock
      (with_both (plan (pos 1)) part_split progress_stock) refl refl
      (both_saved (more_split app (plan (pos 1))) (progressed app part_split (plan (pos 1)))
        part_stock)
      (both_saved (plan (pos 1)) part_split progress_stock)
