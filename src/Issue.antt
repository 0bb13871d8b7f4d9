-- ===== src/Issue.antt =====
-- services/dc_issue.go: issuing delivery challans, alone or with their shipment group.
pub mod Validate
pub mod Group
pub mod Completes
pub mod Transfer
mod Tests
pub mod Tracked
pub mod Duplicates
use project_tracker.Prelude.{
  String, Bool, true, false, not, ◌==◌, if◌then◌else◌, Option, none, some, List, [], ◌∷◌,
}
use project_tracker.Prelude.Exec.{
  Result, ok, err, Exec, ◌>>=◌, ◌>>◌, pure, throw, gets, check, or_throw, throw_if, attempt,
  for_each,
}
use project_tracker.Store.Schema.{
  DeliveryChallan, ShipmentGroup, DcStatus, GroupStatus, shipment_groups, delivery_challans,
}
use project_tracker.Store.App.{App}
use project_tracker.Store.Status.{is_draft, is_draft_group, is_transit, is_transfer}
use project_tracker.Services.{
  Error, group_not_found, group_not_draft, fetch_group_dcs_failed, dc_not_found, not_draft,
  not_transfer, issue_failed, update_group_failed, dc_not_draft, issue_dc_failed,
}
use Validate.{validate_dc_serials}

module _ (app : App) where
  open app use {Db, find_record_by_id, find_records_by_filter, save, now_rfc3339}

  abbrev pub issued_now : DeliveryChallan → DeliveryChallan
  issued_now dc = record dc { status = DcStatus.issued; issued_at = now_rfc3339 }

  -- The loops of `IssueShipmentGroup`: the drafts' check, the serials' check, and the writes.
  unfoldable pub require_drafts : List DeliveryChallan → Exec Db Error (Unit {0})
  unfolding for_each
  require_drafts dcs =
      for_each dcs (λ dc. throw_if (not (is_draft dc.status)) (dc_not_draft dc.dc_number))

  unfoldable pub validate_transit : String → List DeliveryChallan → Exec Db Error (Unit {0})
  unfolding for_each
  validate_transit project_id dcs = for_each dcs (λ dc.
      if is_transit dc.dc_type then check (validate_dc_serials app dc.id project_id) else pure tt)

  unfoldable pub issue_all : List DeliveryChallan → Exec Db Error (Unit {0})
  unfolding for_each
  issue_all dcs = for_each dcs (λ dc.
      attempt (issue_dc_failed dc.dc_number) (save delivery_challans (issued_now dc)) >> pure tt)

  -- `IssueShipmentGroup`
  unfoldable pub issue_shipment_group : String → Exec Db Error (Unit {0})
  unfolding require_drafts validate_transit issue_all
  issue_shipment_group group_id = do
    found ← gets (find_record_by_id shipment_groups group_id)
    sg ← or_throw group_not_found found
    throw_if (not (is_draft_group sg.status)) group_not_draft
    listed ←
        gets (find_records_by_filter delivery_challans (λ dc. dc.shipment_group == group_id) "" 0)
    dcs ← or_throw fetch_group_dcs_failed listed
    require_drafts dcs
    validate_transit sg.project dcs
    issue_all dcs
    attempt update_group_failed (save shipment_groups (record sg { status = GroupStatus.issued }))
    pure tt

  -- `IssueTransferDC`
  unfoldable pub issue_transfer_dc : String → Exec Db Error (Unit {0})
  issue_transfer_dc dc_id = do
    found ← gets (find_record_by_id delivery_challans dc_id)
    dc ← or_throw dc_not_found found
    throw_if (not (is_draft dc.status)) not_draft
    throw_if (not (is_transfer dc.dc_type)) not_transfer
    check (validate_dc_serials app dc_id dc.project)
    attempt issue_failed (save delivery_challans (issued_now dc))
    pure tt

  -- The last part of `IssueSingleDC`, for a challan that stands alone.
  unfoldable pub issue_standalone : String → DeliveryChallan → Exec Db Error (Unit {0})
  issue_standalone dc_id dc = do
    check (validate_dc_serials app dc_id dc.project)
    attempt issue_failed (save delivery_challans (issued_now dc))
    pure tt

  -- `IssueSingleDC`
  unfoldable pub issue_single_dc : String → Exec Db Error (Unit {0})
  issue_single_dc dc_id = do
    found ← gets (find_record_by_id delivery_challans dc_id)
    dc ← or_throw dc_not_found found
    throw_if (not (is_draft dc.status)) not_draft
    if not (dc.shipment_group == "")
        then issue_shipment_group dc.shipment_group
        else if is_transfer dc.dc_type
        then issue_transfer_dc dc_id
        else issue_standalone dc_id dc
