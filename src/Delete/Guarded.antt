-- ===== src/Delete/Guarded.antt =====
-- `HandleDCDelete`: what it refuses to delete.
use project_tracker.Prelude.{
  String, ◌≡◌, ◌⊎◌, refl, some, inl, inr, Bool-cases, Option-cases, ◌==◌, eq_iff,
}
use project_tracker.Prelude.Exec.{Result, err}
use project_tracker.Store.Schema.{DeliveryChallan, DcStatus, delivery_challans}
use project_tracker.Store.App.{App}
use project_tracker.Store.Status.{is_draft-eq, is_draft}
use project_tracker.Services.{Error}
use project_tracker.Delete.{handle_dc_delete, delete_draft}

module _ (app : App) where
  open app use {Db, find_record_by_id}

  -- The call was refused and the store is as it was, or the challan is a draft of the project.
  abbrev pub DeleteGuarded : String → String → Db → Result Error (Unit {0}) × Db → Type 0
  DeleteGuarded project_id dc_id db r =
      ((e : Error) × (r ≡ (err e, db)))
      ⊎ ((dc : DeliveryChallan) × (find_record_by_id delivery_challans dc_id db ≡ some dc)
          × (dc.project ≡ project_id)
          × (dc.status ≡ DcStatus.draft)
          × (r ≡ delete_draft app dc_id dc db))

  -- Only a draft challan of the project named in the request is deleted; any other call is an error
  -- that changes nothing.
  pub handle_dc_delete-DeleteGuarded :
      (project_id dc_id : String) (db : Db)
      → DeleteGuarded project_id dc_id db (handle_dc_delete app project_id dc_id db)
  unfolding handle_dc_delete
  handle_dc_delete-DeleteGuarded project_id dc_id db =
      elim (Option-cases (find_record_by_id delivery_challans dc_id db)) [
        | inl missing ↦ rw missing (inl (_, refl))
        | inr (dc, found) ↦ elim (Bool-cases (dc.project == project_id)) [
          | inr other ↦ rw (found, other) (inl (_, refl))
          | inl same ↦ elim (Bool-cases (is_draft dc.status)) [
            | inr other ↦ rw (found, same, other) (inl (_, refl))
            | inl draft ↦ inr (
              dc,
              found,
              (eq_iff dc.project project_id).0 same,
              is_draft-eq dc.status draft,
              rw (found, same, draft) refl,
            )
          ]
        ]
      ]
