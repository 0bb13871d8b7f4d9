-- ===== src/Vendors/Guarded.antt =====
-- Vendors: a vendor that orders refer to is not deleted, and a project is linked to a vendor at most
-- once.
use project_tracker.Prelude.{
  String, ◌==◌, ◌||◌, ◌&&◌, ◌≡◌, ◌≢◌, ◌⊎◌, inl, inr, refl, sym, ap, ◌∙◌, true, false, Option, none,
  some, some-injective, List, [], ◌∷◌, Bool-cases, Option-cases, eq_iff, ne_of_test,
}
use project_tracker.Prelude.Exec.{Result, ok, err, attempt}
use project_tracker.Store.Schema.{
  ProjectVendor, PurchaseOrder, vendors, project_vendors, purchase_orders, projects,
}
use project_tracker.Store.App.{App, Laws}
use project_tracker.Store.Status.{or_empty}
use project_tracker.Store.Saved.{Saved, save_fresh}
use project_tracker.Services.{Error}
use project_tracker.Vendors.{
  handle_vendor_delete, orders_of_vendor, has_any, links_of, new_link, create_link,
  handle_vendor_link,
}

module _ (app : App) where
  open app use {Db, has_collection, find_record_by_id, find_records_by_filter, save, delete}

  -- No stored order is with the vendor.
  abbrev pub Unused : String → Db → Type 0
  Unused vendor_id db =
      (i : String) (po : PurchaseOrder)
      → find_record_by_id purchase_orders i db ≡ some po
      → po.vendor ≢ vendor_id

  -- The call was refused and nothing changed, or the vendor was deleted, and it had no orders unless
  -- the query for them failed.
  abbrev pub VendorDeleted : String → Db → Result Error (Unit {0}) × Db → Type 0
  VendorDeleted vendor_id db (err e, db') = db' ≡ db
  VendorDeleted vendor_id db (ok a, db') =
      (delete vendors vendor_id db ≡ some (tt, db'))
      × ((orders_of_vendor app vendor_id db ≡ none) ⊎ Unused vendor_id db)

  -- Nobody is linked to the same vendor twice.
  abbrev pub LinksUnique : Db → Type 0
  LinksUnique db =
      (i j : String) (l m : ProjectVendor)
      → find_record_by_id project_vendors i db ≡ some l
      → find_record_by_id project_vendors j db ≡ some m
      → l.project ≡ m.project
      → l.vendor ≡ m.vendor
      → i ≡ j

  module _ (laws : Laws app) where
    unused :
        (vendor_id : String) (db : Db) (o : Option (List PurchaseOrder))
        → orders_of_vendor app vendor_id db ≡ o
        → has_any (or_empty o) ≡ false
        → (orders_of_vendor app vendor_id db ≡ none) ⊎ Unused vendor_id db
    unused vendor_id db none q h = inl q
    unused vendor_id db (some (po ∷ pos)) q h = absurd (cc)
    unused vendor_id db (some []) q h = inr (λ i po found e.
        let other : (po.vendor == vendor_id) ≡ false =
          laws.query_none purchase_orders (λ r. r.vendor == vendor_id) "" db i po q found in
        ne_of_test po.vendor vendor_id other e)

    -- HandleVendorDelete changes nothing when it returns an error. Otherwise it deletes the vendor,
    -- and no stored order is with that vendor, unless the query for its orders failed.
    pub handle_vendor_delete-VendorDeleted :
        (vendor_id : String) (db : Db)
        → VendorDeleted vendor_id db (handle_vendor_delete app vendor_id db)
    unfolding handle_vendor_delete
    handle_vendor_delete-VendorDeleted vendor_id db = elim (Bool-cases (vendor_id == "")) [
      | inl blank ↦ rw blank refl
      | inr named ↦ elim (Option-cases (find_record_by_id vendors vendor_id db)) [
        | inl missing ↦ rw (named, missing) refl
        | inr (r, found) ↦
            elim (Bool-cases (has_any (or_empty (orders_of_vendor app vendor_id db)))) [
              | inl ordered ↦ rw (named, found, ordered) refl
              | inr free ↦ elim (Option-cases (delete vendors r.id db)) [
                | inl failed ↦ rw (named, found, free, attempt, failed) refl
                | inr ((u, db'), gone) ↦
                    rw (named, found, free, attempt, gone)
                      (
                        ap (λ j. delete vendors j db)
                              (sym (laws.id-find vendors vendor_id db r found))
                            ∙ gone,
                        unused vendor_id db (orders_of_vendor app vendor_id db) refl free,
                      )
              ]
            ]
      ]
    ]

    -- A link that has just been created is the only one of its project and vendor.
    created :
        (p v : String) (db db' : Db) (r : ProjectVendor)
        → LinksUnique db
        → ((i : String) (l : ProjectVendor)
            → find_record_by_id project_vendors i db ≡ some l
            → l.project ≡ p
            → l.vendor ≡ v
            → ⊥)
        → r.project ≡ p
        → r.vendor ≡ v
        → Saved app project_vendors r db db'
        → LinksUnique db'
    created p v db db' r unique free rp rv saved i j l m fi fj ep ev =
        let known : (k : String) (n : ProjectVendor)
            → k ≡ r.id
            → find_record_by_id project_vendors k db' ≡ some n
            → n ≡ r =
          λ k n e f.
            some-injective n r
              (sym f ∙ ap (λ x. find_record_by_id project_vendors x db') e ∙ saved.found) in
        elim (Bool-cases (i == r.id)) [
          | inl hit ↦ elim (Bool-cases (j == r.id)) [
            | inl too ↦ (eq_iff i r.id).0 hit ∙ sym ((eq_iff j r.id).0 too)
            | inr other ↦
                let lr = known i l ((eq_iff i r.id).0 hit) fi in
                absurd (
                  free j m (sym (saved.others j (ne_of_test j r.id other)) ∙ fj)
                    (sym ep ∙ ap (λ (x : ProjectVendor). x.project) lr ∙ rp)
                    (sym ev ∙ ap (λ (x : ProjectVendor). x.vendor) lr ∙ rv))
          ]
          | inr other ↦ elim (Bool-cases (j == r.id)) [
            | inl hit ↦
                let mr = known j m ((eq_iff j r.id).0 hit) fj in
                absurd (
                  free i l (sym (saved.others i (ne_of_test i r.id other)) ∙ fi)
                    (ep ∙ ap (λ (x : ProjectVendor). x.project) mr ∙ rp)
                    (ev ∙ ap (λ (x : ProjectVendor). x.vendor) mr ∙ rv))
            | inr too ↦
                unique i j l m (sym (saved.others i (ne_of_test i r.id other)) ∙ fi)
                  (sym (saved.others j (ne_of_test j r.id too)) ∙ fj) ep ev
          ]
        ]

    not_linked :
        (p v : String) (db : Db)
        → links_of app p v db ≡ some []
        → (i : String) (l : ProjectVendor) → find_record_by_id project_vendors i db ≡ some l
        → l.project ≡ p
        → l.vendor ≡ v
        → ⊥
    not_linked p v db q i l found ep ev =
        let miss : (l.project == p && l.vendor == v) ≡ false =
          laws.query_none project_vendors (λ r. r.project == p && r.vendor == v) "" db i l q
            found in
        let ep' : (l.project == p) ≡ true = (eq_iff l.project p).1 ep in
        let ev' : (l.vendor == v) ≡ true = (eq_iff l.vendor v).1 ev in cc (rw (ep', ev') at miss)

    create_link-LinksUnique :
        (p v : String) (db : Db)
        → LinksUnique db
        → links_of app p v db ≡ some []
        → LinksUnique ((create_link app p v db).1)
    unfolding create_link
    create_link-LinksUnique p v db unique q =
        elim (Bool-cases (has_collection project_vendors db)) [
          | inr missing ↦ rw missing unique
          | inl known ↦ elim (Option-cases (save project_vendors (new_link app p v) db)) [
            | inl failed ↦ rw (known, attempt, failed) unique
            | inr ((r, db'), w) ↦
                let (n, shape, free, saved) =
                  save_fresh app laws project_vendors (new_link app p v) db refl w in
                rw (known, attempt, w)
                  (created p v db db' r unique (not_linked p v db q)
                    (ap (λ (x : ProjectVendor). x.project) shape)
                    (ap (λ (x : ProjectVendor). x.vendor) shape) saved)
          ]
        ]

    none_listed :
        (o : Option (List ProjectVendor)) → o ≢ none → has_any (or_empty o) ≡ false → o ≡ some []
    none_listed none ne h = absurd (ne refl)
    none_listed (some []) ne h = refl
    none_listed (some (l ∷ ls)) ne h = absurd (cc)

    -- HandleVendorLink keeps it true that no project is linked to a vendor twice, if the query for
    -- links does not fail.
    pub handle_vendor_link-LinksUnique :
        (p v : String) (db : Db)
        → links_of app p v db ≢ none
        → LinksUnique db
        → LinksUnique ((handle_vendor_link app p v db).1)
    unfolding handle_vendor_link
    handle_vendor_link-LinksUnique p v db ne unique = elim (Bool-cases (p == "" || v == "")) [
      | inl blank ↦ rw blank unique
      | inr named ↦ elim (Option-cases (find_record_by_id projects p db)) [
        | inl missing ↦ rw (named, missing) unique
        | inr (project, found) ↦ elim (Option-cases (find_record_by_id vendors v db)) [
          | inl missing ↦ rw (named, found, missing) unique
          | inr (vendor, there) ↦ elim (Bool-cases (has_any (or_empty (links_of app p v db)))) [
            | inl linked ↦ rw (named, found, there, linked) unique
            | inr free ↦
                rw (named, found, there, free)
                  (create_link-LinksUnique p v db unique
                    (none_listed (links_of app p v db) ne free))
          ]
        ]
      ]
    ]
