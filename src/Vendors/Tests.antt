-- ===== src/Vendors/Tests.antt =====
-- Vendors, on a store in memory: one vendor, one project, no orders.
use project_tracker.Prelude.{◌==◌, Bool-cases, inl, inr, [], ◌∷◌}
use project_tracker.Store.Schema.{vendors, projects}
use project_tracker.Store.Memory.{MemDb, empty_db, put_table}
use project_tracker.Store.Memory.Lawful.{memory-Laws}
use project_tracker.Store.Samples.{app, every, june, project_one}
use project_tracker.Vendors.{blank_vendor, handle_vendor_delete, handle_vendor_link}
use project_tracker.Vendors.Guarded.{
  VendorDeleted, handle_vendor_delete-VendorDeleted, LinksUnique, handle_vendor_link-LinksUnique,
}

abbrev one_vendor : MemDb
one_vendor =
    put_table projects (project_one ∷ [])
      (put_table vendors (record blank_vendor { id = "v1" } ∷ []) empty_db)

handle_vendor_delete-VendorDeleted_example :
    VendorDeleted app "v1" one_vendor (handle_vendor_delete app "v1" one_vendor)
handle_vendor_delete-VendorDeleted_example =
    handle_vendor_delete-VendorDeleted app (memory-Laws every june) "v1" one_vendor

no_links : LinksUnique app one_vendor
no_links i j l m fi fj ep ev = elim (Bool-cases (i == "")) [
  | inl blank ↦ absurd (cc (rw blank at fi))
  | inr named ↦ absurd (cc (rw named at fi))
]

handle_vendor_link-LinksUnique_example :
    LinksUnique app ((handle_vendor_link app "p1" "v1" one_vendor).1)
handle_vendor_link-LinksUnique_example =
    handle_vendor_link-LinksUnique app (memory-Laws every june) "p1" "v1" one_vendor (λ e. cc)
      no_links
