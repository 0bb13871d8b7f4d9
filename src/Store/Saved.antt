-- ===== src/Store/Saved.antt =====
-- One save of a record: what it stores, and what it leaves alone.
use project_tracker.Prelude.{String, inl, inr, ◌≡◌, ◌≢◌, refl, ap, ◌∙◌, none, some, subst}
use project_tracker.Prelude.Exec.{Result, ok, err}
use project_tracker.Store.Schema.{Collection, Row, row_id, with_id}
use project_tracker.Store.App.{App, Laws}

module _ (app : App) where
  open app use {Db, find_record_by_id, save}

  -- The record is stored, and every other record is as it was.
  pub record Saved (c : Collection) (r : Row c) (db db' : Db) : Type 0 where
    pub found : find_record_by_id c (row_id c r) db' ≡ some r
    pub others :
        (i : String) → i ≢ row_id c r → find_record_by_id c i db' ≡ find_record_by_id c i db
    pub elsewhere :
        (d : Collection) (i : String) → d ≢ c → find_record_by_id d i db' ≡ find_record_by_id d i db

  module _ (laws : Laws app) (c : Collection) (r : Row c) (db : Db) where
    id_nonempty : (i : String) (s : Row c) → find_record_by_id c i db ≡ some s → i ≢ ""
    id_nonempty i s found e =
        cc (subst (λ j. find_record_by_id c j db ≡ some s) e found, laws.find_empty c db)

    -- Saving a record under the id of a stored one replaces that one.
    pub save_known :
        (s : Row c) {r' : Row c} {db' : Db}
        → find_record_by_id c (row_id c r) db ≡ some s
        → save c r db ≡ some (r', db')
        → (r' ≡ r) × Saved c r db db'
    save_known s {r'} {db'} stored w =
        let same : r' ≡ r = laws.save_old c r db w (id_nonempty (row_id c r) s stored) in
        (
          same,
          subst (λ q. Saved c q db db') same
              (record {
                found = laws.find-save_self c r db w;
                others = λ i ne. laws.find-save_ne c r db i w ne;
                elsewhere = λ d i ne. laws.find-save_other c r db d i w ne;
              }),
        )

    -- The same for a record that was looked up and changed.
    pub save_stored :
        (i : String) (s : Row c) {r' : Row c} {db' : Db}
        → find_record_by_id c i db ≡ some s
        → row_id c r ≡ row_id c s
        → save c r db ≡ some (r', db')
        → (r' ≡ r) × Saved c r db db'
    save_stored i s found same w =
        save_known s
          (ap (λ j. find_record_by_id c j db) (same ∙ laws.id-find c i db s found) ∙ found) w

    -- Saving a new record adds one under an id that was free.
    pub save_fresh :
        {r' : Row c} {db' : Db}
        → row_id c r ≡ ""
        → save c r db ≡ some (r', db')
        → (i : String) × (r' ≡ with_id c i r)
          × (find_record_by_id c i db ≡ none)
          × Saved c r' db db'
    save_fresh blank w =
        let (i, ne, shape, free) = laws.save_new c r db w blank in
        (
          i,
          shape,
          free,
          record {
            found = laws.find-save_self c r db w;
            others = λ j nj. laws.find-save_ne c r db j w nj;
            elsewhere = λ d j nd. laws.find-save_other c r db d j w nd;
          },
        )

  -- What a transaction that ended so did: its body's work, or nothing.
  abbrev pub Outcome : {E A : Type 0} → (Db → Result E A × Db) → Db → Result E A × Db → Type 0
  Outcome f db (ok a, db') = f db ≡ (ok a, db')
  Outcome f db (err x, db') = db' ≡ db

  module _ (laws : Laws app) {E A : Type 0} (e : E) (f : Db → Result E A × Db) (db : Db) where
    Outcome-of :
        (out : Result E A × Db) → f db ≡ out → Outcome f db (app.run_in_transaction E A e f db)
    Outcome-of (ok a, db') h = elim (laws.transaction_ok E A e f db h) [
      | inl done ↦ rw done h
      | inr failed ↦ rw failed
    ]
    Outcome-of (err x, db') h = rw (laws.transaction_err E A e f db h)

    pub transaction-Outcome : Outcome f db (app.run_in_transaction E A e f db)
    transaction-Outcome = Outcome-of (f db) refl
