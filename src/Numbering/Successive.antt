-- ===== src/Numbering/Successive.antt =====
-- The counters stay unique, and successive calls count up by one.
use project_tracker.Prelude.{
  String, eq_iff, true, ◌≡◌, inl, inr, sym, ap, ap₂, subst, some-injective, ◌∙◌, some, arith,
  Bool-cases, ◌==◌, ne_of_test,
}
use project_tracker.Prelude.Int.{ℤ, pos, ◌+ℤ◌}
use project_tracker.Prelude.Exec.{Result, ok, err}
use project_tracker.Store.Schema.{Project, NumberSequence, projects, number_sequences}
use project_tracker.Store.App.{App, Laws, Date}
use project_tracker.Services.{Error}
use project_tracker.Numbering.Format.{get_financial_year}
use project_tracker.Numbering.Sequence.{is_sequence, numbered, next_doc_number}
use project_tracker.Numbering.Advance.{Advanced}
use project_tracker.Numbering.Unique.{Numbered, next_doc_number-Numbered}

-- Two keys of one record are the same key.
same_key :
    (p t y p' t' y' : String) (r s : NumberSequence)
    → is_sequence p t y r ≡ true
    → is_sequence p' t' y' r ≡ true
    → is_sequence p' t' y' s ≡ true
    → is_sequence p t y s ≡ true
same_key p t y p' t' y' r s a b c = ground (
  arith,
  eq_iff r.project p,
  eq_iff r.project p',
  eq_iff s.project p',
  eq_iff s.project p,
  eq_iff r.sequence_type t,
  eq_iff r.sequence_type t',
  eq_iff s.sequence_type t',
  eq_iff s.sequence_type t,
  eq_iff r.financial_year y,
  eq_iff r.financial_year y',
  eq_iff s.financial_year y',
  eq_iff s.financial_year y,
)

module _ (app : App) (laws : Laws app) where
  open app use {Db, find_record_by_id}

  -- Each kind of document of a project has at most one counter in a financial year.
  pub record AtMostOne (db : Db) : Type 0 where
    pub same_id :
        (p t y i j : String) (r s : NumberSequence)
        → find_record_by_id number_sequences i db ≡ some r
        → is_sequence p t y r ≡ true
        → find_record_by_id number_sequences j db ≡ some s
        → is_sequence p t y s ≡ true
        → i ≡ j

  module _ (p t y : String) (start n : ℤ) (db db' : Db) (unique : AtMostOne db)
      (adv : Advanced app laws p t y start n db db') where
    -- A counter of the same key, found under another id, was there before.
    no_other :
        (j : String) (s : NumberSequence)
        → find_record_by_id number_sequences j db ≡ some s
        → is_sequence p t y s ≡ true
        → adv.stored.id ≡ j
    no_other j s found key = elim (adv.before) [
      | inl (old, was, matched, e) ↦
          unique.same_id p t y adv.stored.id j old s was matched found key
      | inr (e, free, nothing) ↦ absurd (cc (nothing j s found))
    ]

    stored_twin :
        (p' t' y' j : String) (r s : NumberSequence)
        → find_record_by_id number_sequences adv.stored.id db' ≡ some r
        → is_sequence p' t' y' r ≡ true
        → find_record_by_id number_sequences j db' ≡ some s
        → is_sequence p' t' y' s ≡ true
        → adv.stored.id ≡ j
    stored_twin p' t' y' j r s fr kr fs ks = elim (Bool-cases (j == adv.stored.id)) [
      | inl same ↦ sym ((eq_iff j adv.stored.id).0 same)
      | inr other ↦
          let fs' : _ = sym (adv.others j (ne_of_test j adv.stored.id other)) ∙ fs in
          let er : r ≡ adv.stored = ground (arith, adv.found) in
          no_other j s fs' (
            same_key p t y p' t' y' adv.stored s adv.in_sequence
              (subst (λ q. is_sequence p' t' y' q ≡ true) er kr) ks)
    ]

    pub Advanced-AtMostOne : AtMostOne db'
    Advanced-AtMostOne = record {
      same_id = λ p' t' y' i j r s fr kr fs ks. elim (Bool-cases (i == adv.stored.id)) [
        | inl same ↦
            let e : i ≡ adv.stored.id = (eq_iff i adv.stored.id).0 same in
            e
            ∙ stored_twin p' t' y' j r s
                (subst (λ q. find_record_by_id number_sequences q db' ≡ some r) e fr) kr fs ks
        | inr other ↦ elim (Bool-cases (j == adv.stored.id)) [
          | inl same ↦
              let e : j ≡ adv.stored.id = (eq_iff j adv.stored.id).0 same in
              sym (
                e
                ∙ stored_twin p' t' y' i s r
                    (subst (λ q. find_record_by_id number_sequences q db' ≡ some s) e fs) ks fr kr)
          | inr other' ↦
              unique.same_id p' t' y' i j r s
                (sym (adv.others i (ne_of_test i adv.stored.id other)) ∙ fr) kr
                (sym (adv.others j (ne_of_test j adv.stored.id other')) ∙ fs) ks
        ]
      ];
    }

  Numbered-AtMostOne :
      (p t : String) (d : Date) (db : Db) (out : Result Error String × Db)
      → AtMostOne db
      → Numbered app laws p t d db out
      → AtMostOne out.1
  Numbered-AtMostOne p t d db (err e, db') u h = subst AtMostOne (sym h) u
  Numbered-AtMostOne p t d db (ok s, db') u (q, n, found, e, adv) =
      Advanced-AtMostOne p t (get_financial_year d) _ n db db' u adv

  -- A call keeps the counters unique, whether it issues a number or fails.
  pub next_doc_number-AtMostOne :
      (p t : String) (d : Date) (db : Db)
      → AtMostOne db
      → AtMostOne (next_doc_number app p t d db).1
  next_doc_number-AtMostOne p t d db u =
      Numbered-AtMostOne p t d db _ u (next_doc_number-Numbered app laws p t d db)

  module _ (p t y : String) (start start₂ n n₂ : ℤ) (db db₁ db₂ : Db) (u : AtMostOne db)
      (first : Advanced app laws p t y start n db db₁)
      (second : Advanced app laws p t y start₂ n₂ db₁ db₂) where
    consecutive : n₂ ≡ n +ℤ pos 1
    consecutive = elim (second.before) [
      | inl (old, was, key, e) ↦
          let same_id : first.stored.id ≡ second.stored.id =
            (Advanced-AtMostOne p t y start n db db₁ u first).same_id p t y _ _ first.stored old
              first.found first.in_sequence was key in
          let same : old ≡ first.stored = some-injective _ _ (
            sym was
            ∙ ap (λ i. find_record_by_id number_sequences i db₁) (sym same_id)
            ∙ first.found) in
          e
          ∙ ap (λ (r : NumberSequence). r.last_number +ℤ pos 1) same
          ∙ ap (λ k. k +ℤ pos 1) first.issued
      | inr (e, free, nothing) ↦
          absurd (cc (nothing first.stored.id first.stored first.found, first.in_sequence))
    ]

    same_project :
        (q q₂ : Project)
        → find_record_by_id projects p db ≡ some q
        → find_record_by_id projects p db₁ ≡ some q₂
        → q₂ ≡ q
    same_project q q₂ f f₂ = some-injective _ _ (sym f₂ ∙ first.elsewhere projects p (λ e. cc) ∙ f)

  -- If each counter was unique, two successful calls in a row for the same kind, project and year
  -- format consecutive numbers with the same settings.
  pub next_doc_number-successive :
      (p t : String) (d : Date) (db db₁ db₂ : Db) (s₁ s₂ : String)
      → AtMostOne db
      → next_doc_number app p t d db ≡ (ok s₁, db₁)
      → next_doc_number app p t d db₁ ≡ (ok s₂, db₂)
      → (q : Project) × (n : ℤ) × (find_record_by_id projects p db ≡ some q)
        × (s₁ ≡ numbered app.to_upper q t (get_financial_year d) n)
        × (s₂ ≡ numbered app.to_upper q t (get_financial_year d) (n +ℤ pos 1))
  next_doc_number-successive p t d db db₁ db₂ s₁ s₂ u h₁ h₂ =
      let y = get_financial_year d in
      let (q, n, fq, e₁, a₁) =
        subst (Numbered app laws p t d db) h₁ (next_doc_number-Numbered app laws p t d db) in
      let (q₂, n₂, fq₂, e₂, a₂) =
        subst (Numbered app laws p t d db₁) h₂ (next_doc_number-Numbered app laws p t d db₁) in
      let same = same_project p t y _ _ n n₂ db db₁ db₂ u a₁ a₂ q q₂ fq fq₂ in
      let next = consecutive p t y _ _ n n₂ db db₁ db₂ u a₁ a₂ in
      (q, n, fq, e₁, e₂ ∙ ap₂ (λ (r : Project) (k : ℤ). numbered app.to_upper r t y k) same next)
