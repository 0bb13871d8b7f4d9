-- ===== src/Numbering/Advance.antt =====
-- The transaction of `NextDocNumber`: what it writes, and what it leaves alone.
use project_tracker.Prelude.{
  String, eq_refl, true, false, ◌≡◌, ◌≢◌, ◌⊎◌, inl, inr, refl, sym, none, some, List, [], ◌∷◌,
  Option-cases,
}
use project_tracker.Prelude.Int.{ℤ, pos, ◌+ℤ◌}
use project_tracker.Prelude.Exec.{ok}
use project_tracker.Prelude.Exec.Laws.{attempt_pure_ok}
use project_tracker.Services.{update_sequence_failed, create_sequence_failed}
use project_tracker.Store.Schema.{NumberSequence, number_sequences, Collection}
use project_tracker.Store.App.{App, Laws}
use project_tracker.Store.Saved.{save_known, save_fresh}
use project_tracker.Numbering.Sequence.{is_sequence, advance, store_next}

is_sequence_self :
    (project_id seq_type fy : String) (n : ℤ) (i : String)
    → is_sequence project_id seq_type fy (record {
      id = i;
      project = project_id;
      sequence_type = seq_type;
      financial_year = fy;
      last_number = n;
    })
      ≡ true
is_sequence_self project_id seq_type fy n i = simp eq_refl

module _ (app : App) (laws : Laws app) where
  open app use {Db, find_record_by_id, find_records_by_filter, save}

  -- A run that issued `n` stored one record of the sequence, with `n`; its number was one less
  -- before, or the sequence had no record and `n` is the start.
  pub record Advanced (project_id seq_type fy : String) (start n : ℤ) (db db' : Db) : Type 0 where
    pub stored : NumberSequence
    pub found : find_record_by_id number_sequences stored.id db' ≡ some stored
    pub in_sequence : is_sequence project_id seq_type fy stored ≡ true
    pub issued : stored.last_number ≡ n
    pub others :
        (i : String)
        → i ≢ stored.id
        → find_record_by_id number_sequences i db' ≡ find_record_by_id number_sequences i db
    pub elsewhere :
        (c : Collection) (i : String)
        → c ≢ number_sequences
        → find_record_by_id c i db' ≡ find_record_by_id c i db
    pub before :
        ((old : NumberSequence) × (find_record_by_id number_sequences stored.id db ≡ some old)
          × (is_sequence project_id seq_type fy old ≡ true)
          × (n ≡ old.last_number +ℤ pos 1))
        ⊎ ((n ≡ start)
            × (find_record_by_id number_sequences stored.id db ≡ none)
            × ((i : String) (r : NumberSequence)
                → find_record_by_id number_sequences i db ≡ some r
                → is_sequence project_id seq_type fy r ≡ false))

  module _ (project_id seq_type fy : String) (start n : ℤ) (db db' : Db) where
    store_next-Advanced :
        (rs : List NumberSequence)
        → find_records_by_filter number_sequences (is_sequence project_id seq_type fy) "" 1 db
          ≡ some rs
        → store_next app project_id seq_type fy start rs db ≡ (ok n, db')
        → Advanced project_id seq_type fy start n db db'
    unfolding store_next
    store_next-Advanced (r ∷ rs) q h =
        let r1 : NumberSequence = record r { last_number = r.last_number +ℤ pos 1 } in
        let ((matches, stored), _) = laws.query_sound number_sequences _ "" 1 db q in
        let (r', w, e) =
          attempt_pure_ok update_sequence_failed (r.last_number +ℤ pos 1) (save number_sequences r1)
            db h in
        let saved = (save_known app laws number_sequences r1 db r stored w).1 in
        record {
          stored = r1;
          found = saved.found;
          in_sequence = matches;
          issued = e;
          others = saved.others;
          elsewhere = saved.elsewhere;
          before = inl (r, stored, matches, sym e);
        }
    store_next-Advanced [] q h =
        let r0 : NumberSequence = record {
          id = "";
          project = project_id;
          sequence_type = seq_type;
          financial_year = fy;
          last_number = start;
        } in
        let (r', w, e) =
          attempt_pure_ok create_sequence_failed start (save number_sequences r0) db h in
        let (i, shape, free, saved) = save_fresh app laws number_sequences r0 db refl w in
        record {
          stored = r';
          found = saved.found;
          in_sequence = rw shape (is_sequence_self project_id seq_type fy start i);
          issued = rw shape e;
          others = saved.others;
          elsewhere = saved.elsewhere;
          before = inr (
            sym e,
            rw shape free,
            λ j r found. laws.query_none number_sequences _ "" db j r q found,
          );
        }

    pub advance-Advanced :
        advance app project_id seq_type fy start db ≡ (ok n, db')
        → Advanced project_id seq_type fy start n db db'
    unfolding advance
    advance-Advanced h =
        elim (Option-cases
          (find_records_by_filter number_sequences (is_sequence project_id seq_type fy) "" 1 db)) [
            | inl failed ↦ absurd (cc (rw failed at h))
            | inr (rs, q) ↦ store_next-Advanced rs q (rw q at h)
          ]
