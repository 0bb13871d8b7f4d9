-- ===== src/Issue/Group.antt =====
-- `IssueShipmentGroup`: a run that succeeds has issued every challan of the group, and nothing else.
use mathlib.Core.Option
use project_tracker.Prelude.{
  String, ◌≡◌, ◌≢◌, refl, sym, ap, subst, ◌∙◌, Bool, true, false, not, ◌||◌, some, inl, inr,
  Bool-cases, arith, List, [], ◌∷◌, All, contains, ◌==◌, eq_iff, if◌then◌else◌, ne_of_test,
}
use project_tracker.Prelude.Exec.{Result, ok, Exec, attempt, throw_if, check, pure, ◌>>=◌}
use project_tracker.Prelude.Exec.Laws.{bind_ok, throw_if_ok, attempt_pure_ok}
use project_tracker.Store.Schema.{DeliveryChallan, DcStatus, delivery_challans, Collection}
use project_tracker.Store.App.{App, Laws}
use project_tracker.Store.Saved.{Saved, save_known}
use project_tracker.Store.Status.{is_draft-eq, is_draft, is_transit}
use project_tracker.Issue.Validate.{validate_dc_serials}
use project_tracker.Services.{Error, issue_dc_failed, dc_not_draft}
use project_tracker.Issue.{issued_now, issue_all, require_drafts, validate_transit}

module _ (app : App) where
  open app use {Db, find_record_by_id, find_records_by_filter, save}

  abbrev pub ids : List DeliveryChallan → List String
  ids [] = []
  ids (dc ∷ dcs) = dc.id ∷ ids dcs

  -- Since `db`, the challans listed have been issued, and no other record has changed.
  pub record OnlyIssued (done : List String) (db db' : Db) : Type 0 where
    pub challans :
        (i : String)
        → find_record_by_id delivery_challans i db' ≡ (
            if contains i done
            then Option.map (issued_now app) (find_record_by_id delivery_challans i db)
            else find_record_by_id delivery_challans i db)
    pub elsewhere :
        (c : Collection) (i : String)
        → c ≢ delivery_challans
        → find_record_by_id c i db' ≡ find_record_by_id c i db

  module _ (laws : Laws app) where
    one_more :
        (dc : DeliveryChallan) (done : List String) (db db₁ db₂ : Db)
        → find_record_by_id delivery_challans dc.id db ≡ some dc
        → OnlyIssued done db db₁
        → Saved app delivery_challans (issued_now app dc) db₁ db₂
        → OnlyIssued (dc.id ∷ done) db db₂
    one_more dc done db db₁ db₂ found before saved = record {
      challans = λ i. elim (Bool-cases (i == dc.id)) [
        | inl same ↦
            let e : i ≡ dc.id = (eq_iff i dc.id).0 same in
            rw same (
              ap (λ j. find_record_by_id delivery_challans j db₂) e
              ∙ saved.found
              ∙ ap (Option.map (issued_now app))
                  (sym found ∙ ap (λ j. find_record_by_id delivery_challans j db) (sym e)))
        | inr other ↦ rw other (saved.others i (ne_of_test i dc.id other) ∙ before.challans i)
      ];
      elsewhere = λ c i ne. saved.elsewhere c i ne ∙ before.elsewhere c i ne;
    }

    -- A listed challan is in the store, issued already or not.
    still_there :
        (dc : DeliveryChallan) (done : List String) (db db₁ : Db)
        → find_record_by_id delivery_challans dc.id db ≡ some dc
        → OnlyIssued done db db₁
        → (s : DeliveryChallan) × (find_record_by_id delivery_challans dc.id db₁ ≡ some s)
    still_there dc done db db₁ found before = elim (Bool-cases (contains dc.id done)) [
      | inl listed ↦ (issued_now app dc, before.challans dc.id ∙ rw (listed, found) refl)
      | inr new ↦ (dc, before.challans dc.id ∙ rw (new, found) refl)
    ]

    not-false : (b : Bool) → not b ≡ false → b ≡ true
    not-false b h = ground arith

    or_swap : (a b c d : Bool) → d ≡ (b || (a || c)) → d ≡ ((a || b) || c)
    or_swap a b c d h = ground arith

    pub issue_all-OnlyIssued :
        (dcs : List DeliveryChallan) (done : List String) (db db₁ db' : Db)
        → All (λ dc. find_record_by_id delivery_challans dc.id db ≡ some dc) dcs
        → OnlyIssued done db db₁
        → issue_all app dcs db₁ ≡ (ok tt, db')
        → (all : List String) × OnlyIssued all db db'
          × ((i : String) → contains i all ≡ (contains i (ids dcs) || contains i done))
    unfolding issue_all
    issue_all-OnlyIssued [] done db db₁ db' a before h =
        (done, subst (OnlyIssued done db) (ap (λ r. r.1) h) before, λ i. refl)
    issue_all-OnlyIssued (dc ∷ dcs) done db db₁ db' (found, a) before h =
        let (u, db₂, first, rest) =
          bind_ok
            (attempt (issue_dc_failed dc.dc_number) (save delivery_challans (issued_now app dc))
              >>= λ _. λ t. (ok tt, t))
            (λ _. issue_all app dcs) db₁ h in
        let (r, w, e) =
          attempt_pure_ok (issue_dc_failed dc.dc_number) tt
            (save delivery_challans (issued_now app dc)) db₁ first in
        let (s, stored) = still_there dc done db db₁ found before in
        let saved = (save_known app laws delivery_challans (issued_now app dc) db₁ s stored w).1 in
        let (all, only, listed) =
          issue_all-OnlyIssued dcs (dc.id ∷ done) db db₂ db' a
            (one_more dc done db db₁ db₂ found before saved) rest in
        (
          all,
          only,
          λ i.
              or_swap (i == dc.id) (contains i (ids dcs)) (contains i done) (contains i all)
                (listed i),
        )

    pub require_drafts-draft :
        (dcs : List DeliveryChallan) (db db' : Db)
        → require_drafts app dcs db ≡ (ok tt, db')
        → All (λ dc. dc.status ≡ DcStatus.draft) dcs × (db' ≡ db)
    unfolding require_drafts
    require_drafts-draft [] db db' h = (tt, ap (λ r. r.1) (sym h))
    require_drafts-draft (dc ∷ dcs) db db' h =
        let refuse : Exec Db Error (Unit {0}) =
          throw_if (not (is_draft dc.status)) (dc_not_draft dc.dc_number) in
        let (u, db₁, first, rest) = bind_ok refuse (λ _. require_drafts app dcs) db h in
        let (passed, same) =
          throw_if_ok (not (is_draft dc.status)) (dc_not_draft dc.dc_number) db first in
        let (all, end) = require_drafts-draft dcs db₁ db' rest in
        ((is_draft-eq dc.status (not-false (is_draft dc.status) passed), all), end ∙ same)

    check_same :
        (c : Bool) (v : Db → Result Error (Unit {0})) (db db' : Db) {u : Unit {0}}
        → (if c then check v else pure tt) db ≡ (ok u, db')
        → db' ≡ db
    check_same true v db db' h = ap (λ r. r.1) (sym h)
    check_same false v db db' h = ap (λ r. r.1) (sym h)

    pub validate_transit-same :
        (project_id : String) (dcs : List DeliveryChallan) (db db' : Db)
        → validate_transit app project_id dcs db ≡ (ok tt, db')
        → db' ≡ db
    unfolding validate_transit
    validate_transit-same project_id [] db db' h = ap (λ r. r.1) (sym h)
    validate_transit-same project_id (dc ∷ dcs) db db' h =
        let one : Exec Db Error (Unit {0}) =
          if is_transit dc.dc_type
          then check (validate_dc_serials app dc.id project_id)
          else pure tt in
        let (u, db₁, first, rest) = bind_ok one (λ _. validate_transit app project_id dcs) db h in
        validate_transit-same project_id dcs db₁ db' rest
        ∙ check_same (is_transit dc.dc_type) (validate_dc_serials app dc.id project_id) db db₁ first
