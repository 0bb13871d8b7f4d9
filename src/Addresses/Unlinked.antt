-- ===== src/Addresses/Unlinked.antt =====
-- `nullifyLinkedInstallAtAddresses`: nothing refers to the address afterwards.
use project_tracker.Prelude.{
  String, ◌==◌, ◌||◌, contains, ◌≡◌, ◌≢◌, inl, inr, sym, ap, ◌∙◌, subst, true, false, Option, none,
  some, some-injective, List, [], ◌∷◌, All, Any, Bool-cases, Option-cases, eq_iff, ne_of_test,
}
use project_tracker.Prelude.Exec.{Result, ok, err, attempt, for_each}
use project_tracker.Prelude.Exec.Laws.{bind_ok}
use project_tracker.Store.Schema.{Address, addresses}
use project_tracker.Store.App.{App, Laws}
use project_tracker.Services.{Error, delete_failed}
use project_tracker.Addresses.Delete.{
  linked_to, cut_loose, nullify_linked_install_at_addresses, type_of_slug, address_types, release,
  handle_address_delete,
}

module _ (app : App) where
  open app use {Db, has_collection, find_record_by_id, find_records_by_filter, save, delete}

  -- No stored address to install at refers to the address.
  abbrev pub Unlinked : String → Db → Type 0
  Unlinked ship_to_id db =
      (j : String) (a : Address)
      → find_record_by_id addresses j db ≡ some a
      → linked_to ship_to_id a ≡ false

  -- Only the addresses of the list refer to it.
  abbrev LinkedIn : String → List Address → Db → Type 0
  LinkedIn ship_to_id rs db =
      (j : String) (a : Address)
      → find_record_by_id addresses j db ≡ some a
      → linked_to ship_to_id a ≡ true
      → Any (λ r. r ≡ a) rs

  module _ (laws : Laws app) (ship_to_id : String) (named : ship_to_id ≢ "") where
    abbrev freed : Address → Address
    freed r = record r { ship_to_parent = "" }

    freed_unlinked : (r : Address) → linked_to ship_to_id (freed r) ≡ true → ⊥
    freed_unlinked r h = elim (Bool-cases (r.address_type == "install_at")) [
      | inl there ↦ named (sym ((eq_iff "" ship_to_id).0 (rw there at h)))
      | inr other ↦ cc (rw other at h)
    ]

    fewer :
        (r : Address) (rs : List Address) (db : Db) {r' : Address} {d : Db}
        → r.id ≢ ""
        → LinkedIn ship_to_id (r ∷ rs) db
        → save addresses (freed r) db ≡ some (r', d)
        → LinkedIn ship_to_id rs d
    fewer r rs db {r'} {d} ne inside w j a found linked =
        let same : r' ≡ freed r = laws.save_old addresses (freed r) db w ne in
        let at_id : r'.id ≡ r.id = ap (λ (x : Address). x.id) same in
        elim (Bool-cases (j == r'.id)) [
          | inl hit ↦
              let stored : find_record_by_id addresses j d ≡ some r' =
                ap (λ k. find_record_by_id addresses k d) ((eq_iff j r'.id).0 hit)
                ∙ laws.find-save_self addresses (freed r) db w in
              let e : a ≡ freed r = some-injective a r' (sym found ∙ stored) ∙ same in
              absurd (freed_unlinked r (subst (λ x. linked_to ship_to_id x ≡ true) e linked))
          | inr other ↦
              let before : find_record_by_id addresses j db ≡ some a =
                sym (laws.find-save_ne addresses (freed r) db j w (ne_of_test j r'.id other))
                ∙ found in
              elim (inside j a before linked) [
                | inl hit ↦ absurd (
                    ne_of_test j r'.id other (
                      sym (laws.id-find addresses j db a before)
                      ∙ sym (ap (λ (x : Address). x.id) hit)
                      ∙ sym at_id))
                | inr later ↦ later
              ]
        ]

    none_left :
        (rs : List Address) (db db' : Db)
        → All (λ r. r.id ≢ "") rs
        → LinkedIn ship_to_id rs db
        → for_each rs (cut_loose app) db ≡ (ok tt, db')
        → LinkedIn ship_to_id [] db'
    unfolding for_each cut_loose
    none_left [] db db' ids inside h =
        subst (LinkedIn ship_to_id []) (ap (λ (x : Result Error (Unit {0}) × Db). x.1) h) inside
    none_left (r ∷ rs) db db' (ne, ids) inside h =
        elim (Option-cases (save addresses (freed r) db)) [
          | inl failed ↦ absurd (cc (rw (attempt, failed) at h))
          | inr ((r', d), w) ↦
              none_left rs d db' ids (fewer r rs db ne inside w) (rw (attempt, w) at h)
        ]

    ids_of :
        (rs : List Address) (db : Db)
        → All
            (λ r. (linked_to ship_to_id r ≡ true) × (find_record_by_id addresses r.id db ≡ some r))
            rs
        → All (λ r. r.id ≢ "") rs
    ids_of [] db h = tt
    ids_of (r ∷ rs) db ((l, found), rest) = (
      λ e. cc (
        subst (λ i. find_record_by_id addresses i db ≡ some r) e found,
        laws.find_empty addresses db,
      ),
      ids_of rs db rest,
    )

    -- If nullifyLinkedInstallAtAddresses returns no error for an id that is not empty, then no stored
    -- address to install at refers to that id.
    pub nullify_linked_install_at_addresses-Unlinked :
        (db db' : Db)
        → nullify_linked_install_at_addresses app ship_to_id db ≡ (ok tt, db')
        → Unlinked ship_to_id db'
    unfolding nullify_linked_install_at_addresses
    nullify_linked_install_at_addresses-Unlinked db db' h =
        elim (Bool-cases (has_collection addresses db)) [
          | inr missing ↦ absurd (cc (rw missing at h))
          | inl known ↦
              elim (Option-cases
                (find_records_by_filter addresses (linked_to ship_to_id) "" 0 db)) [
                  | inl failed ↦ absurd (cc (rw (known, failed) at h))
                  | inr (rs, q) ↦
                      let inside : LinkedIn ship_to_id rs db = λ j a found linked.
                        laws.query_complete addresses (linked_to ship_to_id) "" db j a q found
                          linked in
                      let left =
                        none_left rs db db'
                          (ids_of rs db
                            (laws.query_sound addresses (linked_to ship_to_id) "" 0 db q))
                          inside (rw (known, q) at h) in
                      λ j a found. elim (Bool-cases (linked_to ship_to_id a)) [
                        | inl linked ↦ absurd ((left j a found linked).0)
                        | inr free ↦ free
                      ]
                ]
        ]

  module _ (laws : Laws app) (project_id slug address_id : String) where
    deleted_of :
        (o : Option (Unit {0} × Db)) (e : Error) (d : Db) {db' : Db}
        → (elim o as (λ _. Result Error (Unit {0}) × Db) [
          | none ↦ (err e, d)
          | some (u, s) ↦ (ok u, s)
        ])
          ≡ (ok tt, db')
        → o ≡ some (tt, db')
    deleted_of none e d h = absurd (cc)
    deleted_of (some (u, s)) e d h = ap (λ (x : Result Error (Unit {0}) × Db). some (tt, x.1)) h

    released :
        (t : String) (db : Db) (r : Result Error (Unit {0}) × Db)
        → (t == "ship_to") ≡ true
        → release app t address_id db ≡ r
        → nullify_linked_install_at_addresses app address_id db ≡ r
    released t db r e h = rw e at h

    -- If HandleAddressDelete, called under the path of the addresses to ship to, returns no error, then
    -- the address of the request was deleted from a store in which no address to install at refers to
    -- it.
    pub handle_address_delete-Unlinked :
        (db db' : Db)
        → type_of_slug slug ≡ "ship_to"
        → handle_address_delete app project_id slug address_id db ≡ (ok tt, db')
        → (d : Db) × Unlinked address_id d × (delete addresses address_id d ≡ some (tt, db'))
    unfolding handle_address_delete
    handle_address_delete-Unlinked db db' kind h =
        elim (Bool-cases (project_id == "" || slug == "" || address_id == "")) [
          | inl blank ↦ absurd (cc (rw blank at h))
          | inr given ↦ elim (Bool-cases (contains (type_of_slug slug) address_types)) [
            | inr strange ↦ absurd (cc)
            | inl known ↦ elim (Option-cases (find_record_by_id addresses address_id db)) [
              | inl missing ↦ absurd (cc (rw (given, known, missing) at h))
              | inr (rec, found) ↦ elim (Bool-cases (rec.project == project_id)) [
                | inr foreign ↦ absurd (cc (rw (given, known, found, foreign) at h))
                | inl own ↦
                    let (u, d, first, last) =
                      bind_ok (release app (type_of_slug slug) address_id)
                        (λ _. attempt delete_failed (delete addresses rec.id)) db
                        (rw (given, known, found, own) at h) in
                    let ship : (type_of_slug slug == "ship_to") ≡ true =
                      (eq_iff (type_of_slug slug) "ship_to").1 kind in
                    let named : address_id ≢ "" = λ e. cc (
                      subst (λ i. find_record_by_id addresses i db ≡ some rec) e found,
                      laws.find_empty addresses db,
                    ) in
                    (
                      d,
                      nullify_linked_install_at_addresses-Unlinked laws address_id named db d
                          (released (type_of_slug slug) db (ok u, d) ship first),
                      ap (λ j. delete addresses j d)
                            (sym (laws.id-find addresses address_id db rec found))
                          ∙ deleted_of (delete addresses rec.id d) delete_failed d last,
                    )
              ]
            ]
          ]
        ]
