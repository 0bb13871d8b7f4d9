-- ===== src/Transporters/Toggled.antt =====
-- `HandleTransporterToggle`: switching a transporter off and on again.
use project_tracker.Prelude.{
  String, ◌==◌, ◌≡◌, inl, inr, refl, ap, ◌∙◌, subst, Bool, true, false, not, some, Bool-cases,
  Option-cases,
}
use project_tracker.Prelude.Exec.{Result, ok, attempt}
use project_tracker.Store.Schema.{Transporter, transporters}
use project_tracker.Store.App.{App, Laws}
use project_tracker.Store.Saved.{save_stored}
use project_tracker.Services.{Error}
use project_tracker.Transporters.{own_transporter, handle_transporter_toggle}

not_twice : (b : Bool) → not (not b) ≡ b
not_twice true = refl
not_twice false = refl

abbrev toggled : Transporter → Transporter
toggled rec = record rec { is_active = not rec.is_active }

module _ (app : App) (laws : Laws app) (project_id i : String) where
  open app use {Db, find_record_by_id, save}

  -- The stores after a call that returned no error.
  second :
      {d d' : Db} {a b : Unit {0}}
      → ◌≡◌ {A = Result Error (Unit {0}) × Db} (ok a, d) (ok b, d')
      → d ≡ d'
  second h = ap (λ (r : Result Error (Unit {0}) × Db). r.1) h

  toggle_once :
      (rec : Transporter) (db d : Db)
      → find_record_by_id transporters i db ≡ some rec
      → handle_transporter_toggle app project_id i db ≡ (ok tt, d)
      → find_record_by_id transporters i d ≡ some (toggled rec)
  unfolding handle_transporter_toggle own_transporter
  toggle_once rec db d found h = elim (Bool-cases (rec.project == project_id)) [
    | inr foreign ↦ absurd (cc (rw (found, foreign) at h))
    | inl own ↦ elim (Option-cases (save transporters (toggled rec) db)) [
      | inl failed ↦ absurd (cc (rw (found, own, attempt, failed) at h))
      | inr ((r, d₁), w) ↦
          let same : d₁ ≡ d = second (rw (found, own, attempt, w) at h) in
          let saved = (save_stored app laws transporters (toggled rec) db i rec found refl w).1 in
          let e : rec.id ≡ i = laws.id-find transporters i db rec found in
          subst (λ x. find_record_by_id transporters i x ≡ some (toggled rec)) same
            (subst (λ j. find_record_by_id transporters j d₁ ≡ some (toggled rec)) e saved.found)
    ]
  ]

  -- Two calls of HandleTransporterToggle in a row that both return no error leave the transporter as
  -- it was.
  pub handle_transporter_toggle-twice :
      (rec : Transporter) (db d d' : Db)
      → find_record_by_id transporters i db ≡ some rec
      → handle_transporter_toggle app project_id i db ≡ (ok tt, d)
      → handle_transporter_toggle app project_id i d ≡ (ok tt, d')
      → find_record_by_id transporters i d' ≡ some rec
  handle_transporter_toggle-twice rec db d d' found first again =
      toggle_once (toggled rec) d d' (toggle_once rec db d found first) again
      ∙ ap (λ b. some (record rec { is_active = b })) (not_twice rec.is_active)
