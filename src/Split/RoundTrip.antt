-- ===== src/Split/RoundTrip.antt =====
-- Steps 15 and 16 of `CreateSplit`, then steps 9 and 10 of `UndoSplit`: the progress is as before.
use project_tracker.Prelude.{
  ℕ, ◌+◌, ◌-◌, ◌<◌, ◌≤◌, String, ◌≡◌, ◌≢◌, ◌==◌, refl, sym, ap, subst, ◌∙◌, Bool-cases, true,
  Option, none, some, inl, inr, arith, eq_iff, ne_of_test,
}
use project_tracker.Prelude.Int.{pos, ◌+ℤ◌, ltb_ℤ, half_range, suc-pos, pred-pos}
use project_tracker.Prelude.Exec.{Result, ok, resume, ◌>>=◌, ignore}
use project_tracker.Store.Schema.{
  DcStatus, DeliveryChallan, TransferDc, Collection, delivery_challans, transfer_dcs,
}
use project_tracker.Store.App.{App, Laws}
use project_tracker.Store.Saved.{Saved, save_known}
use project_tracker.Services.{Error}
use project_tracker.Split.Params.{progress_status}
use project_tracker.Split.Finish.{record_progress}
use project_tracker.Split.Undo.{one_split_less, status_after_undo, record_undo}

-- One split more, then one less.
one_split_less-next : (n : ℕ) → n < half_range - 1 → one_split_less (pos n +ℤ pos 1) ≡ pos n
unfolding one_split_less
one_split_less-next n h =
    let positive : ltb_ℤ (pos 0) (pos (n + 1)) ≡ true = ground arith in
    rw (suc-pos n h, positive) (pred-pos n h)

-- The status of a challan of which `n` splits for `m` destinations are recorded.
pub data Fits (n m : ℕ) : DcStatus → Type 0 where
  untouched : n ≡ 0 → Fits n m DcStatus.issued
  part_way : 0 < n → n < m → Fits n m DcStatus.splitting
  all_done : 0 < n → m ≤ n → Fits n m DcStatus.split

Fits-status : (n m : ℕ) (s : DcStatus) → Fits n m s → s ≡ status_after_undo (pos n) (pos m)
unfolding status_after_undo progress_status
Fits-status n m _ (untouched e) = ground arith
Fits-status n m _ (part_way h k) = ground arith
Fits-status n m _ (all_done h k) = ground arith

module _ (app : App) where
  open app use {Db, find_record_by_id, save}

  -- The two stores hold the same records.
  pub record SameProgress (db db' : Db) : Type 0 where
    pub plans :
        (i : String) → find_record_by_id transfer_dcs i db' ≡ find_record_by_id transfer_dcs i db
    pub challans :
        (i : String)
        → find_record_by_id delivery_challans i db' ≡ find_record_by_id delivery_challans i db
    pub elsewhere :
        (c : Collection) (i : String)
        → c ≢ transfer_dcs
        → c ≢ delivery_challans
        → find_record_by_id c i db' ≡ find_record_by_id c i db

  -- The plan and the challan with a split more.
  abbrev pub more_split : TransferDc → TransferDc
  more_split t = record t { num_split = t.num_split +ℤ pos 1 }

  abbrev pub progressed : DeliveryChallan → TransferDc → DeliveryChallan
  progressed dc t = record dc { status = progress_status (t.num_split +ℤ pos 1) t.num_destinations }

  -- Two saves one after the other, of a plan and of a challan, whose errors are dropped.
  Stored : TransferDc → DeliveryChallan → Db → Db → Type 0
  Stored t d db db' =
      (db₁ : Db) × Saved app transfer_dcs t db db₁ × Saved app delivery_challans d db₁ db'

  outcome : {A : Type 0} → Db → Option (A × Db) → Result Error (Unit {0}) × Db
  outcome db none = (ok tt, db)
  outcome db (some (a, s)) = (ok tt, s)

  ignored :
      {A : Type 0} (f : Db → Option (A × Db)) (db : Db) {a : A} {db' : Db}
      → f db ≡ some (a, db')
      → ignore {E = Error} f db ≡ (ok tt, db')
  unfolding outcome
  ignored f db w = ap (outcome db) w

  -- The saves of the plan and then of the challan go through, and end in that store.
  abbrev pub SavesInto : TransferDc → DeliveryChallan → (db db' : Db) → Type 0
  SavesInto t d db db' =
      (t' : TransferDc) × (d' : DeliveryChallan) × (db₁ : Db) × (save transfer_dcs t db
        ≡ some (t', db₁))
      × (save delivery_challans d db₁ ≡ some (d', db'))

  module _ (laws : Laws app) where
    both_saved :
        (t t₀ : TransferDc) (d d₀ : DeliveryChallan) (db db' : Db)
        → SavesInto t d db db'
        → find_record_by_id transfer_dcs t.id db ≡ some t₀
        → find_record_by_id delivery_challans d.id db ≡ some d₀
        → (((ignore {E = Error} (save transfer_dcs t)) >>= (λ _. ignore (save delivery_challans d)))
              db
            ≡ (ok tt, db'))
          × Stored t d db db'
    unfolding Stored
    both_saved t t₀ d d₀ db db' (t', d', db₁, w₁, w₂) ft fd =
        let s₁ = (save_known app laws transfer_dcs t db t₀ ft w₁).1 in
        let s₂ =
          (save_known app laws delivery_challans d db₁ d₀
            (s₁.elsewhere delivery_challans d.id (λ e. cc) ∙ fd) w₂).1 in
        (
          ap (resume (λ _. ignore (save delivery_challans d))) (ignored (save transfer_dcs t) db w₁)
              ∙ ignored (save delivery_challans d) db₁ w₂,
          (db₁, s₁, s₂),
        )

    plans_apart : transfer_dcs ≢ delivery_challans
    plans_apart e = cc

    challans_apart : delivery_challans ≢ transfer_dcs
    challans_apart e = cc

    -- What two such saves in a row leave of the first one.
    undone :
        (t t' : TransferDc) (d d' : DeliveryChallan) (db db₁ db₂ : Db)
        → find_record_by_id transfer_dcs t.id db ≡ some t
        → find_record_by_id delivery_challans d.id db ≡ some d
        → t'.id ≡ t.id
        → d'.id ≡ d.id
        → Stored t' d' db db₁
        → Stored t d db₁ db₂
        → SameProgress db db₂
    unfolding Stored
    undone t t' d d' db db₁ db₂ ft fd et ed (a, s₁, s₂) (b, s₃, s₄) = record {
      plans = λ i. elim (Bool-cases (i == t.id)) [
        | inl same ↦
            let e = ap (λ j. find_record_by_id transfer_dcs j db₂) ((eq_iff i t.id).0 same) in
            let e' = ap (λ j. find_record_by_id transfer_dcs j db) ((eq_iff i t.id).0 same) in
            e ∙ s₄.elsewhere transfer_dcs t.id plans_apart ∙ s₃.found ∙ sym ft ∙ sym e'
        | inr other ↦
            let ne = ne_of_test i t.id other in
            s₄.elsewhere transfer_dcs i plans_apart
            ∙ s₃.others i ne
            ∙ s₂.elsewhere transfer_dcs i plans_apart
            ∙ s₁.others i (subst (λ j. i ≢ j) (sym et) ne)
      ];
      challans = λ i. elim (Bool-cases (i == d.id)) [
        | inl same ↦
            let e = ap (λ j. find_record_by_id delivery_challans j db₂) ((eq_iff i d.id).0 same) in
            let e' = ap (λ j. find_record_by_id delivery_challans j db) ((eq_iff i d.id).0 same) in
            e ∙ s₄.found ∙ sym fd ∙ sym e'
        | inr other ↦
            let ne = ne_of_test i d.id other in
            s₄.others i ne
            ∙ s₃.elsewhere delivery_challans i challans_apart
            ∙ s₂.others i (subst (λ j. i ≢ j) (sym ed) ne)
            ∙ s₁.elsewhere delivery_challans i challans_apart
      ];
      elsewhere = λ c i nt nd.
          s₄.elsewhere c i nd ∙ s₃.elsewhere c i nt ∙ s₂.elsewhere c i nd ∙ s₁.elsewhere c i nt;
    }

    module _ (t : TransferDc) (d : DeliveryChallan) (n m : ℕ) (counted : t.num_split ≡ pos n)
        (planned : t.num_destinations ≡ pos m) (small : n < half_range - 1)
        (in_step : Fits n m d.status) where
      count_back : one_split_less (t.num_split +ℤ pos 1) ≡ t.num_split
      count_back =
          subst (λ k. one_split_less (k +ℤ pos 1) ≡ k) (sym counted) (one_split_less-next n small)

      status_back :
          status_after_undo (one_split_less (t.num_split +ℤ pos 1)) t.num_destinations ≡ d.status
      status_back =
          ap (λ k. status_after_undo k t.num_destinations) (count_back ∙ counted)
          ∙ ap (status_after_undo (pos n)) planned
          ∙ sym (Fits-status n m d.status in_step)

      -- The plan and the challan as the undoing writes them.
      abbrev pub plan_undone : TransferDc
      plan_undone = record t { num_split = one_split_less (t.num_split +ℤ pos 1) }

      abbrev pub challan_undone : DeliveryChallan
      challan_undone = record d {
        status = status_after_undo (one_split_less (t.num_split +ℤ pos 1)) t.num_destinations;
      }

      plan_same : plan_undone ≡ t
      plan_same = ap (λ k. record t { num_split = k }) count_back

      challan_same : challan_undone ≡ d
      challan_same = ap (λ s. record d { status = s }) status_back

      -- If the four saves go through, recording a split in the plan and the status of a transfer
      -- challan, and then undoing it, leaves every record as it was. The plan counts `n` splits, fewer
      -- than the largest integer, of `m` destinations. The challan is issued if `n` is 0, else split
      -- if `n` is at least `m`, and else splitting.
      pub record_undo-record_progress :
          (db db₁ db₂ : Db)
          → find_record_by_id transfer_dcs t.id db ≡ some t
          → find_record_by_id delivery_challans d.id db ≡ some d
          → SavesInto (more_split t) (progressed d t) db db₁
          → SavesInto t d db₁ db₂
          → SameProgress db
              (record_undo app (more_split t) (progressed d t) (record_progress app d t db).1).1
      unfolding record_progress record_undo Stored
      record_undo-record_progress db db₁ db₂ ft fd w₁ w₂ =
          let (run₁, (a, s₁, s₂)) =
            both_saved (more_split t) t (progressed d t) d db db₁ w₁ ft fd in
          let ft₁ = s₂.elsewhere transfer_dcs t.id plans_apart ∙ s₁.found in
          let w₃ =
            subst (λ p. SavesInto p challan_undone db₁ db₂) (sym plan_same)
              (subst (λ c. SavesInto t c db₁ db₂) (sym challan_same) w₂) in
          let (run₂, st₂) =
            both_saved plan_undone (more_split t) challan_undone (progressed d t) db₁ db₂ w₃ ft₁
              s₂.found in
          let st₃ =
            subst (λ p. Stored p d db₁ db₂) plan_same
              (subst (λ c. Stored plan_undone c db₁ db₂) challan_same st₂) in
          let first : (record_progress app d t db).1 ≡ db₁ = ap (λ r. r.1) run₁ in
          subst (SameProgress db)
            (sym (
              ap (λ s. (record_undo app (more_split t) (progressed d t) s).1) first
              ∙ ap (λ r. r.1) run₂))
            (undone t (more_split t) d (progressed d t) db db₁ db₂ ft fd refl refl (a, s₁, s₂) st₃)
