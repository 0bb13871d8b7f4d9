-- ===== src/Issue/Transfer.antt =====
-- `IssueTransferDC`: every way it can end.
use project_tracker.Prelude.{String, ◌≡◌, some}
use project_tracker.Prelude.Exec.{Result, ok, err}
use project_tracker.Store.Schema.{DeliveryChallan, DcStatus, DcType, delivery_challans}
use project_tracker.Store.App.{App, Laws}
use project_tracker.Store.Saved.{Saved}
use project_tracker.Services.{Error}
use project_tracker.Issue.{issued_now}
use project_tracker.Issue.Validate.{validate_dc_serials}

module _ (app : App) (laws : Laws app) where
  open app use {Db, find_record_by_id, save}

  -- An error changes nothing. Otherwise the challan was a draft transfer whose serials pass, and
  -- the store has it issued, with the rest as before.
  abbrev pub TransferIssued : String → Db → Result Error (Unit {0}) × Db → Type 0
  TransferIssued dc_id db (err e, db') = db' ≡ db
  TransferIssued dc_id db (ok u, db') =
      (dc : DeliveryChallan) × (find_record_by_id delivery_challans dc_id db ≡ some dc)
      × (dc.status ≡ DcStatus.draft)
      × (dc.dc_type ≡ DcType.transfer)
      × (validate_dc_serials app dc_id dc.project db ≡ ok tt)
      × Saved app delivery_challans (issued_now app dc) db db'
