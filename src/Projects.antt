-- ===== src/Projects.antt =====
-- handlers/project_delete.go, boq_delete.go, dc_issue.go and dc_edit.go: short handlers of projects,
-- bills of quantities and challans.
use project_tracker.Prelude.{String, ◌==◌, not, Bool, if◌then◌else◌}
use project_tracker.Prelude.Exec.{
  Exec, ◌>>=◌, ◌>>◌, pure, gets, or_throw, throw_if, attempt, ignore, for_each,
}
use project_tracker.Store.Schema.{Boq, DeliveryChallan, projects, boqs, delivery_challans}
use project_tracker.Store.App.{App}
use project_tracker.Store.Status.{or_empty, is_draft}
use project_tracker.Services.{
  Error, missing_id, record_not_found, collection_not_found, delete_failed, dc_not_found,
  not_in_project, not_draft,
}
use project_tracker.Issue.{issue_single_dc}

module _ (app : App) where
  open app use {Db, has_collection, find_record_by_id, find_records_by_filter, save, delete}

  -- What happens to a bill of quantities of a project that is deleted; errors are dropped.
  unfoldable pub release_boq : Bool → Boq → Exec Db Error (Unit {0})
  release_boq delete_boqs boq =
      if delete_boqs
      then ignore (delete boqs boq.id)
      else ignore (save boqs (record boq { project = "" }))

  -- `HandleProjectDelete`
  unfoldable pub handle_project_delete : (project_id : String) → Bool → Exec Db Error (Unit {0})
  unfolding for_each
  handle_project_delete project_id delete_boqs = do
    throw_if (project_id == "") missing_id
    found ← gets (find_record_by_id projects project_id)
    project ← or_throw (record_not_found projects) found
    known ← gets (has_collection boqs)
    throw_if (not known) (collection_not_found boqs)
    rows ← gets (find_records_by_filter boqs (λ b. b.project == project_id) "" 0)
    for_each (or_empty rows) (release_boq delete_boqs)
    attempt delete_failed (delete projects project.id)

  -- `HandleBOQDelete`
  unfoldable pub handle_boq_delete : String → Exec Db Error (Unit {0})
  handle_boq_delete boq_id = do
    throw_if (boq_id == "") missing_id
    found ← gets (find_record_by_id boqs boq_id)
    boq ← or_throw (record_not_found boqs) found
    attempt delete_failed (delete boqs boq.id)

  -- A challan, if it belongs to the project.
  unfoldable pub own_challan : (project_id dc_id : String) → Exec Db Error DeliveryChallan
  own_challan project_id dc_id = do
    found ← gets (find_record_by_id delivery_challans dc_id)
    dc ← or_throw dc_not_found found
    throw_if (not (dc.project == project_id)) not_in_project
    pure dc

  -- `HandleDCIssue`
  unfoldable pub handle_dc_issue : (project_id dc_id : String) → Exec Db Error (Unit {0})
  handle_dc_issue project_id dc_id = own_challan project_id dc_id >> issue_single_dc app dc_id

  -- `HandleDCEdit`
  unfoldable pub handle_dc_edit : (project_id dc_id : String) → Exec Db Error (Unit {0})
  handle_dc_edit project_id dc_id = do
    dc ← own_challan project_id dc_id
    throw_if (not (is_draft dc.status)) not_draft
