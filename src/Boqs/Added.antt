-- ===== src/Boqs/Added.antt =====
-- HandleAddMainItem, HandleAddSubItem and HandleAddSubSubItem store one record at most.
use project_tracker.Prelude.{
  ap, ◌∙◌, ◌+◌, List, length, arith, String, ◌==◌, ◌||◌, Bool, true, false, not, ◌≡◌, ◌⊎◌, inl, inr,
  refl, sym, ◌∙◌, subst, Option, none, some, Bool-cases, Option-cases,
}
use project_tracker.Prelude.Int.{ℤ, pos}
use project_tracker.Prelude.Exec.{
  Result, ok, err, Exec, resume, ◌>>=◌, ◌>>◌, pure, gets, or_throw, throw_if, attempt,
}
use project_tracker.Store.Schema.{
  MainBoqItem, SubItem, SubSubItem, Collection, Row, row_id, with_id, main_boq_items, sub_items,
  sub_sub_items, boqs,
}
use project_tracker.Store.App.{App, Laws}
use project_tracker.Store.Saved.{Saved, save_fresh}
use project_tracker.Services.{Error, collection_not_found, record_not_found}
use project_tracker.Boqs.Add.{
  build_boq_edit_data, next_position, new_main_item, new_sub_item, new_sub_sub_item,
  main_item_position, sub_item_position, sub_sub_item_position, handle_add_main_item,
  handle_add_sub_item, handle_add_sub_sub_item,
}

-- Code that reads the store only.
abbrev pub Reads : {S E A : Type 0} → Exec S E A → Type 0
Reads {S} m = (s : S) → (m s).1 ≡ s

module _ {S E A B : Type 0} where
  resume-Reads :
      (f : A → Exec S E B) (r : Result E A × S) (s : S)
      → ((a : A) → Reads (f a))
      → r.1 ≡ s
      → (resume f r).1 ≡ s
  resume-Reads f (ok a, t) s k e = k a t ∙ e
  resume-Reads f (err x, t) s k e = e

module _ {S E A : Type 0} where
  or_throw-Reads : (e : E) (o : Option A) → Reads (or_throw {S = S} e o)
  or_throw-Reads e none s = refl
  or_throw-Reads e (some a) s = refl

module _ {S E : Type 0} where
  throw_if-Reads : (c : Bool) (e : E) → Reads (throw_if {S = S} c e)
  throw_if-Reads true e s = refl
  throw_if-Reads false e s = refl

module _ (app : App) where
  open app use {Db, has_collection, find_record_by_id, find_records_by_filter, save}

  -- A new record, of which `P` holds, is stored under a free id, and nothing else changes.
  abbrev pub Stored : (c : Collection) → (Row c → Type 0) → Db → Db → Type 0
  Stored c P db db' =
      (r : Row c) × (find_record_by_id c (row_id c r) db ≡ none) × Saved app c r db db' × P r

  -- The same after a run that returned no error; one that did may have changed nothing.
  abbrev pub Added :
      (c : Collection) → (Row c → Type 0) → Db → Result Error (Unit {0}) × Db → Type 0
  Added c P db (ok u, db') = Stored c P db db'
  Added c P db (err e, db') = (db' ≡ db) ⊎ Stored c P db db'

  -- The position behind the siblings that a query gave, the first one if it failed.
  abbrev pub IsLast : {R : Type 0} → Option (List R) → ℤ → Type 0
  IsLast none position = position ≡ pos 1
  IsLast (some siblings) position = position ≡ pos (length siblings + 1)

  -- What the three new items are like.
  abbrev pub IsMainItem : (boq_id : String) → Db → MainBoqItem → Type 0
  IsMainItem boq_id db r =
      (r.boq ≡ boq_id)
      × (r.budgeted_price ≡ app.float_zero)
      × IsLast (find_records_by_filter main_boq_items (λ q. q.boq == boq_id) "sort_order" 0 db)
          r.sort_order

  abbrev pub IsSubItem : (main_item_id : String) → Db → SubItem → Type 0
  IsSubItem main_item_id db r =
      (r.main_item ≡ main_item_id)
      × (r.budgeted_price ≡ app.float_of_int (pos 1))
      × IsLast
          (find_records_by_filter sub_items (λ q. q.main_item == main_item_id) "sort_order" 0 db)
          r.sort_order

  abbrev pub IsSubSubItem : (sub_item_id : String) → Db → SubSubItem → Type 0
  IsSubSubItem sub_item_id db r =
      (r.sub_item ≡ sub_item_id)
      × (r.budgeted_price ≡ app.float_of_int (pos 1))
      × IsLast
          (find_records_by_filter sub_sub_items (λ q. q.sub_item == sub_item_id) "sort_order" 0 db)
          r.sort_order

  next_position-IsLast : {R : Type 0} (o : Option (List R)) → IsLast o (next_position app o)
  next_position-IsLast none = refl
  next_position-IsLast (some rs) = ap pos (omega arith)

  known_then :
      (c : Collection) (k : Exec Db Error (Unit {0}))
      → Reads k
      → Reads (gets (has_collection c) >>= λ b. throw_if (not b) (collection_not_found c) >> k)
  known_then c k h s =
      resume-Reads (λ _. k) (throw_if (not (has_collection c s)) (collection_not_found c) s) s
        (λ _. h) (throw_if-Reads _ _ s)

  found_then :
      (c : Collection) (i : String) (k : Exec Db Error (Unit {0}))
      → Reads k
      → Reads (gets (find_record_by_id c i) >>= λ o. or_throw (record_not_found c) o >> k)
  found_then c i k h s =
      resume-Reads (λ _. k) (or_throw (record_not_found c) (find_record_by_id c i s) s) s (λ _. h)
        (or_throw-Reads _ _ s)

  pub build_boq_edit_data-Reads : (boq_id : String) → Reads (build_boq_edit_data app boq_id)
  unfolding build_boq_edit_data
  build_boq_edit_data-Reads boq_id = found_then boqs boq_id _ (
      known_then main_boq_items _
        (known_then sub_items _ (λ s. throw_if-Reads (not (has_collection sub_sub_items s)) _ s)))

  module _ (laws : Laws app) where
    ended :
        (c : Collection) (P : Row c → Type 0) (db d : Db) (r : Result Error (Unit {0}) × Db)
        → Stored c P db d
        → r.1 ≡ d
        → Added c P db r
    ended c P db d (ok u, db') h e = subst (Stored c P db) (sym e) h
    ended c P db d (err x, db') h e = inr (subst (Stored c P db) (sym e) h)

    stored_then :
        (c : Collection) (P : Row c → Type 0) (new : Row c) (e : Error)
        (k : Exec Db Error (Unit {0})) (db : Db)
        → row_id c new ≡ ""
        → ((i : String) → row_id c (with_id c i new) ≡ i)
        → ((i : String) → P (with_id c i new))
        → Reads k
        → Added c P db ((attempt e (save c new) >> pure tt >> k) db)
    stored_then c P new e k db blank named holds reads = elim (Option-cases (save c new db)) [
      | inl failed ↦ rw (attempt, failed) (inl refl)
      | inr ((r, d), w) ↦
          let (i, shape, free, kept) = save_fresh app laws c new db blank w in
          rw (attempt, w)
            (ended c P db d (k d)
              (
                r,
                ap (λ j. find_record_by_id c j db) (ap (row_id c) shape ∙ named i) ∙ free,
                kept,
                subst P (sym shape) (holds i),
              )
              (reads d))
    ]

    guarded :
        (c : Collection) (P : Row c → Type 0) (b : Bool) (e : Error) (m : Exec Db Error (Unit {0}))
        (db : Db)
        → Added c P db (m db)
        → Added c P db (
            (throw_if b e
                >> (gets (has_collection c) >>= λ known.
                    throw_if (not known) (collection_not_found c) >> m))
              db)
    guarded c P true e m db h = inl refl
    guarded c P false e m db h = elim (Bool-cases (has_collection c db)) [
      | inr missing ↦ rw missing (inl refl)
      | inl known ↦ rw known h
    ]

    -- HandleAddMainItem, HandleAddSubItem and HandleAddSubSubItem: without an error, a new item is
    -- stored under a free id, and no other record changes. It has the given parent, the number of its
    -- siblings plus one as its position, or one if the query for them failed, and a budgeted price of
    -- zero for a main item and of one for the others. After an error that is so, or nothing changed.
    pub handle_add_item-Added :
        (boq_id parent_id : String) (db : Db)
        → Added main_boq_items (IsMainItem boq_id db) db (handle_add_main_item app boq_id db)
          × Added sub_items
              (IsSubItem parent_id db)
              db
              (handle_add_sub_item app boq_id parent_id db)
          × Added sub_sub_items
              (IsSubSubItem parent_id db)
              db
              (handle_add_sub_sub_item app boq_id parent_id db)
    unfolding handle_add_main_item handle_add_sub_item handle_add_sub_sub_item
    handle_add_item-Added boq_id parent_id db =
        let page = build_boq_edit_data-Reads boq_id in
        (
          guarded main_boq_items (IsMainItem boq_id db) (boq_id == "") _ _ db (
              stored_then main_boq_items (IsMainItem boq_id db)
                (new_main_item app boq_id (main_item_position app boq_id db)) _ _ db refl
                (λ i. refl) (λ i. (refl, refl, next_position-IsLast _)) page),
          guarded sub_items (IsSubItem parent_id db) (boq_id == "" || parent_id == "") _ _ db (
              stored_then sub_items (IsSubItem parent_id db)
                (new_sub_item app parent_id (sub_item_position app parent_id db)) _ _ db refl
                (λ i. refl) (λ i. (refl, refl, next_position-IsLast _)) page),
          guarded sub_sub_items (IsSubSubItem parent_id db) (boq_id == "" || parent_id == "") _ _ db
              (stored_then sub_sub_items (IsSubSubItem parent_id db)
                (new_sub_sub_item app parent_id (sub_sub_item_position app parent_id db)) _ _ db
                refl (λ i. refl) (λ i. (refl, refl, next_position-IsLast _))
                (found_then sub_items parent_id _ page)),
        )
