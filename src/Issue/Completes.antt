-- ===== src/Issue/Completes.antt =====
-- `IssueShipmentGroup`: what a run that returns no error has done.
use project_tracker.Prelude.{String, ◌≡◌, ◌≢◌, true, some, List, ◌==◌}
use project_tracker.Store.Schema.{
  DeliveryChallan, ShipmentGroup, DcStatus, GroupStatus, delivery_challans, shipment_groups,
}
use project_tracker.Store.App.{App, Laws}
use project_tracker.Store.Saved.{Saved}
use project_tracker.Issue.{issued_now}

module _ (app : App) where
  open app use {Db, find_record_by_id, find_records_by_filter, save}

  -- The group's challans were all drafts and are issued, every other challan is as before, and the
  -- group was a draft and is issued.
  pub record GroupIssued (group_id : String) (db db' : Db) : Type 0 where
    pub members :
        (i : String) (dc : DeliveryChallan)
        → find_record_by_id delivery_challans i db ≡ some dc
        → dc.shipment_group ≡ group_id
        → (dc.status ≡ DcStatus.draft)
          × (find_record_by_id delivery_challans i db' ≡ some (issued_now app dc))
    pub others :
        (i : String) (dc : DeliveryChallan)
        → find_record_by_id delivery_challans i db ≡ some dc
        → dc.shipment_group ≢ group_id
        → find_record_by_id delivery_challans i db' ≡ some dc
    pub group :
        (sg : ShipmentGroup) × (find_record_by_id shipment_groups group_id db ≡ some sg)
        × (sg.status ≡ GroupStatus.draft)
        × (find_record_by_id shipment_groups group_id db'
            ≡ some (record sg { status = GroupStatus.issued }))

  module _ (laws : Laws app) (group_id : String) (db : Db) (dcs : List DeliveryChallan)
      (listed : find_records_by_filter delivery_challans
          (λ dc. dc.shipment_group == group_id)
          ""
          0
          db
        ≡ some dcs) where
    abbrev Passing : DeliveryChallan → Type 0
    Passing dc =
        ((dc.shipment_group == group_id) ≡ true)
        × (find_record_by_id delivery_challans dc.id db ≡ some dc)
