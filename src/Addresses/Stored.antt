-- ===== src/Addresses/Stored.antt =====
-- services/address_import.go: the addresses that the loop of insertChunk leaves in the store.
use project_tracker.Prelude.{
  ℕ, suc, String, ◌==◌, ◌&&◌, ◌≡◌, refl, sym, ap, ◌∙◌, subst, Bool, true, false, not, if◌then◌else◌,
  Option, none, some, List, [], ◌∷◌, ◌++◌, arith,
}
use project_tracker.Prelude.Exec.{ok, pure, or_throw}
use project_tracker.Prelude.Exec.Laws.{bind_ok, bind_same, attempt_pure_ok}
use project_tracker.Store.Schema.{Address, addresses}
use project_tracker.Store.App.{App, Laws}
use project_tracker.Store.Saved.{Saved, save_fresh}
use project_tracker.Addresses.Fields.{Texts, text_at}
use project_tracker.Addresses.Import.{Outside}
use project_tracker.Addresses.Commit.{
  ImportRowError, import_address_field_keys, data_map, id_in, parent_of, new_address, insert_row,
  insert_rows, failed_to_save,
}

-- Some of the elements, in their order.
pub data Sublist {A : Type 0} : List A → List A → Type 0 where
  none_of : Sublist [] []
  skip : {x : A} {xs ys : List A} → Sublist xs ys → Sublist xs (x ∷ ys)
  keep : {x : A} {xs ys : List A} → Sublist xs ys → Sublist (x ∷ xs) (x ∷ ys)

module _ {A : Type 0} where
  pub Sublist-skip_all : (ws : List A) {xs ys : List A} → Sublist xs ys → Sublist xs (ws ++ ys)
  Sublist-skip_all [] h = h
  Sublist-skip_all (w ∷ ws) h = skip (Sublist-skip_all ws h)

  pub Sublist-keep_all :
      (ws : List A) {xs ys : List A} → Sublist xs ys → Sublist (ws ++ xs) (ws ++ ys)
  Sublist-keep_all [] h = h
  Sublist-keep_all (w ∷ ws) h = keep (Sublist-keep_all ws h)

module _ (app : App) (outside : Outside) (project_id address_type : String)
    (known : Option Texts) where
  open app use {Db, find_record_by_id, save}

  -- An address to install at with a reference has the known address of that name as its parent, and
  -- any other address has none.
  abbrev pub HasParent : Bool → (ref parent : String) → Type 0
  HasParent true ref parent = id_in app outside ref known ≡ some parent
  HasParent false ref parent = parent ≡ ""

  -- The address has the data of the row.
  abbrev pub IsRow : Texts → Address → Type 0
  IsRow row a =
      (a.project ≡ project_id)
      × (a.address_type ≡ address_type)
      × (a.fields ≡ data_map import_address_field_keys row [])
      × HasParent (address_type == "install_at" && not (text_at "ship_to_reference" row == ""))
          (text_at "ship_to_reference" row) a.ship_to_parent

  -- Each of the rows is stored as an address of its own under an id that was free, and nothing else
  -- changes.
  unfoldable pub RowsStored : List Texts → Db → Db → Type 0
  RowsStored [] db db' = db' ≡ db
  RowsStored (row ∷ rows) db db' =
      (a : Address) × (d : Db) × (find_record_by_id addresses a.id db ≡ none)
      × IsRow row a
      × Saved app addresses a db d
      × RowsStored rows d db'

  pub RowsStored-append :
      (xs ys : List Texts) (db d db' : Db)
      → RowsStored xs db d
      → RowsStored ys d db'
      → RowsStored (xs ++ ys) db db'
  unfolding RowsStored
  RowsStored-append [] ys db d db' e h = subst (λ s. RowsStored ys s db') e h
  RowsStored-append (x ∷ xs) ys db d db' (a, s, free, row, kept, rest) h =
      (a, s, free, row, kept, RowsStored-append xs ys s d db' rest h)

  or_throw_same :
      {A : Type 0} (e : ImportRowError) (o : Option A) (db : Db) {a : A} {d : Db}
      → or_throw e o db ≡ (ok a, d)
      → (d ≡ db) × (o ≡ some a)
  or_throw_same e none db h = absurd (cc)
  or_throw_same e (some x) db h = (sym (ap (λ r. r.1) h), ground arith)

  parent_read :
      (b : Bool) (ref : String) (e : ImportRowError) (db : Db) {parent : String} {d : Db}
      → (if b then or_throw e (id_in app outside ref known) else pure "") db ≡ (ok parent, d)
      → (d ≡ db) × HasParent b ref parent
  parent_read true ref e db h = or_throw_same e (id_in app outside ref known) db h
  parent_read false ref e db h = (sym (ap (λ r. r.1) h), ground arith)

  parent_of-HasParent :
      (n : ℕ) (row : Texts) (db : Db) {parent : String} {d : Db}
      → parent_of app outside address_type known n row db ≡ (ok parent, d)
      → (d ≡ db)
        × HasParent
            (address_type == "install_at" && not (text_at "ship_to_reference" row == ""))
            (text_at "ship_to_reference" row)
            parent
  unfolding parent_of
  parent_of-HasParent n row db h = parent_read _ _ _ db h

  module _ (laws : Laws app) where
    new_address-IsRow :
        (n : ℕ) (row : Texts) (parent : String) (db db' : Db) {r : Address}
        → HasParent
            (address_type == "install_at" && not (text_at "ship_to_reference" row == ""))
            (text_at "ship_to_reference" row)
            parent
        → save addresses
            (record (new_address app outside project_id address_type n row db) {
              ship_to_parent = parent;
            })
            db
          ≡ some (r, db')
        → (find_record_by_id addresses r.id db ≡ none) × IsRow row r × Saved app addresses r db db'
    unfolding new_address
    new_address-IsRow n row parent db db' {r} linked w =
        let (i, shape, free, kept) = save_fresh app laws addresses _ db refl w in
        (
          ap (λ j. find_record_by_id addresses j db) (ap (λ (x : Address). x.id) shape) ∙ free,
          subst (IsRow row) (sym shape) (refl, refl, refl, linked),
          kept,
        )

    insert_row-stored :
        (n : ℕ) (row : Texts) (db db' : Db)
        → insert_row app outside project_id address_type known n row db ≡ (ok tt, db')
        → (a : Address) × (find_record_by_id addresses a.id db ≡ none)
          × IsRow row a
          × Saved app addresses a db db'
    unfolding insert_row
    insert_row-stored n row db db' h =
        let (parent, read, rest) =
          bind_same (parent_of app outside address_type known (suc n) row) _ db
            (λ a t first. (parent_of-HasParent (suc n) row db first).0) h in
        let linked = (parent_of-HasParent (suc n) row db read).1 in
        let (r, w, done) =
          attempt_pure_ok (record { row = suc n; field = ""; message = failed_to_save }) tt
            (save addresses (record (new_address app outside project_id address_type n row db) {
              ship_to_parent = parent;
            }))
            db rest in
        let (free, is, kept) = new_address-IsRow n row parent db db' linked w in (r, free, is, kept)

    pub insert_rows-RowsStored :
        (n : ℕ) (rows : List Texts) (db db' : Db)
        → insert_rows app outside project_id address_type known n rows db ≡ (ok tt, db')
        → RowsStored rows db db'
    unfolding insert_rows RowsStored
    insert_rows-RowsStored n [] db db' h = sym (ap (λ r. r.1) h)
    insert_rows-RowsStored n (row ∷ rows) db db' h =
        let (u, d, first, rest) =
          bind_ok (insert_row app outside project_id address_type known n row)
            (λ _. insert_rows app outside project_id address_type known (suc n) rows) db h in
        let (a, free, is, kept) = insert_row-stored n row db d first in
        (a, d, free, is, kept, insert_rows-RowsStored (suc n) rows d db' rest)
