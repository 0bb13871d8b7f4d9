-- ===== src/Numbering/Unique.antt =====
-- `NextDocNumber` on the store: every branch, and the numbers of successive calls.
use project_tracker.Prelude.{String, ◌≡◌, inl, inr, refl, some, Option-cases, Bool-cases}
use project_tracker.Prelude.Int.{ℤ}
use project_tracker.Prelude.Exec.{Result, ok, err, resume}
use project_tracker.Store.Schema.{Project, projects, number_sequences}
use project_tracker.Store.App.{App, Laws, Date}
use project_tracker.Store.Saved.{Outcome, transaction-Outcome}
use project_tracker.Services.{Error, commit_failed}
use project_tracker.Numbering.Format.{get_financial_year}
use project_tracker.Numbering.Sequence.{advance, seq_start, numbered, next_doc_number}
use project_tracker.Numbering.Advance.{Advanced, advance-Advanced}

module _ (app : App) (laws : Laws app) where
  open app use {Db, find_record_by_id, has_collection}

  -- How a call ends: with an error and the store as it was, or with the number of a new document.
  abbrev pub Numbered : String → String → Date → Db → Result Error String × Db → Type 0
  Numbered project_id seq_type d db (err e, db') = db' ≡ db
  Numbered project_id seq_type d db (ok s, db') =
      (p : Project) × (n : ℤ) × (find_record_by_id projects project_id db ≡ some p)
      × (s ≡ numbered app.to_upper p seq_type (get_financial_year d) n)
      × Advanced app laws project_id seq_type (get_financial_year d) (seq_start p seq_type) n db db'

  module _ (project_id seq_type : String) (d : Date) (db : Db) where
    finish :
        (p : Project)
        → find_record_by_id projects project_id db ≡ some p
        → (out : Result Error ℤ × Db)
        → Outcome app
            (advance app project_id seq_type (get_financial_year d) (seq_start p seq_type))
            db
            out
        → Numbered project_id seq_type d db (
            resume (λ n t. (ok (numbered app.to_upper p seq_type (get_financial_year d) n), t)) out)
    finish p found (err e, t) h = h
    finish p found (ok n, t) h =
        (p, n, found, refl, advance-Advanced app laws project_id seq_type _ _ n db t h)

    -- A call fails and changes nothing, or issues the next number of its sequence.
    pub next_doc_number-Numbered :
        Numbered project_id seq_type d db (next_doc_number app project_id seq_type d db)
    unfolding next_doc_number
    next_doc_number-Numbered = elim (Option-cases (find_record_by_id projects project_id db)) [
      | inl missing ↦ rw missing
      | inr (p, found) ↦ elim (Bool-cases (has_collection number_sequences db)) [
        | inl known ↦
            rw (found, known)
              (finish p found _ (
                transaction-Outcome app laws commit_failed
                  (advance app project_id seq_type (get_financial_year d) (seq_start p seq_type))
                  db))
        | inr unknown ↦ rw (found, unknown)
      ]
    ]
