-- ===== src/Store/Memory/Lawful.antt =====
-- The store in memory has the laws of the application interface.
use project_tracker.Store.Memory.Db.{MemDb, table, table-put_self, table-put_ne, row_id-with_id}
use project_tracker.Store.Memory.Table.{
  find, select, fresh, id-find, select_sound, select_complete, find-fresh, fresh-nonempty,
  find-without_ne,
}
use project_tracker.Prelude.{
  String, ◌≡◌, ◌≢◌, inl, inr, refl, sym, ap, ◌∙◌, subst, Bool, true, false, none, some, List, [],
  ◌∷◌, arith, eq_refl, ◌==◌, if◌then◌else◌, All, Any, Bool-cases, test_of_ne, some-injective,
}
use project_tracker.Prelude.Exec.{Result, ok, err}
use project_tracker.Store.Schema.{Collection, Row, row_id, with_id}
use project_tracker.Store.App.{App, Laws, Date}
use project_tracker.Store.Memory.{find_in, has_id, identified, stored, settle, memory}

find_in-some :
    (c : Collection) (i : String) (db : MemDb) (r : Row c)
    → find_in c i db ≡ some r
    → (find (row_id c) i (table c db) ≡ some r) × ((i == "") ≡ false)
find_in-some c i db r h = elim (Bool-cases (i == "")) [
  | inl blank ↦ absurd (cc (rw blank at h))
  | inr named ↦ (rw named at h, named)
]

id-find_in :
    (c : Collection) (i : String) (db : MemDb) (r : Row c)
    → find_in c i db ≡ some r
    → row_id c r ≡ i
id-find_in c i db r h = id-find (row_id c) i (table c db) r (find_in-some c i db r h).0

module _ (c : Collection) (r : Row c) (db : MemDb) where
  identified_old : row_id c r ≢ "" → identified c r db ≡ r
  identified_old ne = rw (test_of_ne (row_id c r) "" ne)

  identified_new :
      row_id c r ≡ ""
      → (i : String) × (i ≢ "") × (identified c r db ≡ with_id c i r) × (find_in c i db ≡ none)
  identified_new e =
      let i = fresh (row_id c) (table c db) in
      let ne : i ≢ "" = fresh-nonempty (row_id c) (table c db) in
      (
        i,
        ne,
        subst (λ j. (if j == "" then with_id c i r else r) ≡ with_id c i r) (sym e) refl,
        rw (test_of_ne i "" ne) (find-fresh (row_id c) (table c db)),
      )

  identified_named : (row_id c (identified c r db) == "") ≡ false
  identified_named = elim (Bool-cases (row_id c r == "")) [
    | inl blank ↦ rw blank (
        subst (λ j. (j == "") ≡ false) (sym (row_id-with_id c (fresh (row_id c) (table c db)) r))
          (test_of_ne (fresh (row_id c) (table c db)) "" (fresh-nonempty (row_id c) (table c db))))
    | inr named ↦ rw named named
  ]

  find_in-stored_self : (row_id c r == "") ≡ false → find_in c (row_id c r) (stored c r db) ≡ some r
  find_in-stored_self named = rw (named, table-put_self, eq_refl (row_id c r))

  find_in-stored_ne : (i : String) → i ≢ row_id c r → find_in c i (stored c r db) ≡ find_in c i db
  find_in-stored_ne i ne = rw (
    table-put_self,
    test_of_ne i (row_id c r) ne,
    find-without_ne (row_id c) i (row_id c r) (table c db) ne,
  )

  find_in-stored_other :
      (d : Collection) (i : String) → d ≢ c → find_in d i (stored c r db) ≡ find_in d i db
  find_in-stored_other d i ne = rw (table-put_ne c d _ db ne)

save_inv : (b : Bool) {A : Type 0} {a a' : A} → (if b then some a else none) ≡ some a' → a ≡ a'
save_inv true h = some-injective _ _ h
save_inv false h = absurd (cc)

module _ (c : Collection) (p : Row c → Bool) (db : MemDb) where
  has_id_split : (r : Row c) → has_id c p r ≡ true → ((row_id c r == "") ≡ false) × (p r ≡ true)
  has_id_split r h = elim (Bool-cases (row_id c r == "")) [
    | inl blank ↦ absurd (cc (rw blank at h))
    | inr named ↦ (named, rw named at h)
  ]

  has_id_pass : (r : Row c) → (row_id c r == "") ≡ false → p r ≡ true → has_id c p r ≡ true
  has_id_pass r named passes = rw named passes

  sound_of :
      (rs : List (Row c))
      → All (λ r. (has_id c p r ≡ true) × (find (row_id c) (row_id c r) (table c db) ≡ some r)) rs
      → All (λ r. (p r ≡ true) × (find_in c (row_id c r) db ≡ some r)) rs
  sound_of [] h = tt
  sound_of (r ∷ rs) ((k, found), rest) =
      let (named, passes) = has_id_split r k in ((passes, rw named found), sound_of rs rest)

abbrev selected : (c : Collection) → (Row c → Bool) → MemDb → List (Row c)
selected c p db = select (row_id c) (has_id c p) (table c db) (table c db)

selected_complete :
    (c : Collection) (p : Row c → Bool) (db : MemDb) (i : String) (r : Row c)
    → find_in c i db ≡ some r
    → p r ≡ true
    → Any (λ s. s ≡ r) (selected c p db)
selected_complete c p db i r h t =
    let (found, named) = find_in-some c i db r h in
    let e : row_id c r ≡ i = id-find_in c i db r h in
    select_complete (row_id c) (has_id c p) (table c db) (table c db) i r found found
      (has_id_pass c p db r (subst (λ j. (j == "") ≡ false) (sym e) named) t)

Any-nil : {A : Type 0} (P : A → Type 0) (xs : List A) → Any P xs → xs ≡ [] → ⊥
Any-nil P [] h e = absurd (h.0)
Any-nil P (x ∷ xs) h e = cc

module _ {E A : Type 0} (db db' : MemDb) where
  settle_err : (x : E) (out : Result E A × MemDb) → out ≡ (err x, db') → settle db out ≡ (err x, db)
  settle_err x (ok b, d) h = absurd (cc)
  settle_err x (err y, d) h = ground arith

  settle_ok : (a : A) (out : Result E A × MemDb) → out ≡ (ok a, db') → settle db out ≡ (ok a, db')
  settle_ok a (ok b, d) h = h
  settle_ok a (err y, d) h = absurd (cc)

module _ (accepts : (c : Collection) → Row c → Bool) (day : Date) where
  abbrev m : App
  m = memory accepts day

  saved_as :
      (c : Collection) (r : Row c) (db : MemDb) {r' : Row c} {db' : MemDb}
      → m.save c r db ≡ some (r', db')
      → (identified c r db ≡ r') × (stored c r' db ≡ db')
  saved_as c r db {r'} {db'} h =
      let e = save_inv (accepts c r) h in
      let e0 = ap (λ (t : Row c × MemDb). t.0) e in
      (e0, subst (λ q. stored c q db ≡ db') e0 (ap (λ (t : Row c × MemDb). t.1) e))

  -- The laws hold of the store in memory, whatever records its saves refuse.
  pub memory-Laws : Laws m
  memory-Laws = record {
    id-find = id-find_in;
    find_empty = λ c db. refl;
    save_old = λ c r db h ne. sym (saved_as c r db h).0 ∙ identified_old c r db ne;
    save_new = λ c r db h blank.
        let (i, ne, shape, free) = identified_new c r db blank in
        (i, ne, sym (saved_as c r db h).0 ∙ shape, free);
    find-save_self = λ c r db {r'} {db'} h.
        let (e0, e1) = saved_as c r db h in
        subst (λ d. find_in c (row_id c r') d ≡ some r') e1
          (find_in-stored_self c r' db
            (subst (λ q. (row_id c q == "") ≡ false) e0 (identified_named c r db)));
    find-save_ne = λ c r db i h ne.
        subst (λ d. find_in c i d ≡ find_in c i db) (saved_as c r db h).1
          (find_in-stored_ne c _ db i ne);
    find-save_other = λ c r db d i h ne.
        subst (λ x. find_in d i x ≡ find_in d i db) (saved_as c r db h).1
          (find_in-stored_other c _ db d i ne);
    query_sound = λ c p sort limit db h.
        subst (All (λ r. (p r ≡ true) × (find_in c (row_id c r) db ≡ some r)))
          (some-injective _ _ h)
          (sound_of c p db _ (select_sound (row_id c) (has_id c p) (table c db) (table c db)));
    query_complete = λ c p sort db i r h found passes.
        subst (Any (λ s. s ≡ r)) (some-injective _ _ h) (selected_complete c p db i r found passes);
    query_none = λ c p sort db i r h found. elim (Bool-cases (p r)) [
      | inl passes ↦ absurd (
          Any-nil (λ s. s ≡ r) (selected c p db) (selected_complete c p db i r found passes)
            (some-injective _ _ h))
      | inr fails ↦ fails
    ];
    transaction_err = λ E A e f db h. settle_err db _ _ (f db) h;
    transaction_ok = λ E A e f db h. inl (settle_ok db _ _ (f db) h);
  }
