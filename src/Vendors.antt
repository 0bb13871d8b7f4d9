-- ===== src/Vendors.antt =====
-- handlers/vendor_create.go, vendor_edit.go, vendor_delete.go and vendor_link.go: vendors and their
-- links to projects. A form that is refused changes nothing; that answer is the error `invalid_form`.
pub mod Guarded
mod Tests
use project_tracker.Prelude.{
  String, ◌==◌, ◌||◌, ◌&&◌, not, Bool, true, false, if◌then◌else◌, Option, none, some, List, [],
  ◌∷◌,
}
use project_tracker.Prelude.Exec.{
  Exec, ◌>>=◌, ◌>>◌, pure, gets, or_throw, throw_if, attempt, ignore, for_each,
}
use project_tracker.Store.Schema.{
  Vendor, ProjectVendor, PurchaseOrder, vendors, project_vendors, purchase_orders, projects,
}
use project_tracker.Store.App.{App}
use project_tracker.Store.Status.{or_empty}
use project_tracker.Services.{
  Error, invalid_form, missing_id, record_not_found, save_failed, collection_not_found,
  delete_failed, vendor_has_orders,
}
use project_tracker.Shipment.Form.{Form}
use project_tracker.Orders.{trimmed}

-- `setVendorFields`, with the fields of the form trimmed.
unfoldable pub set_vendor_fields : Vendor → Form → Vendor
unfolding trimmed
set_vendor_fields r form = record r {
  name = trimmed form "name";
  contact_name = trimmed form "contact_name";
  phone = trimmed form "phone";
  email = trimmed form "email";
  address_line_1 = trimmed form "address_line_1";
  address_line_2 = trimmed form "address_line_2";
  city = trimmed form "city";
  state = trimmed form "state";
  pin_code = trimmed form "pin_code";
  country = trimmed form "country";
  gstin = trimmed form "gstin";
  pan = trimmed form "pan";
  website = trimmed form "website";
  bank_beneficiary_name = trimmed form "bank_beneficiary_name";
  bank_name = trimmed form "bank_name";
  bank_account_no = trimmed form "bank_account_no";
  bank_ifsc = trimmed form "bank_ifsc";
  bank_branch = trimmed form "bank_branch";
  notes = trimmed form "notes";
}

abbrev pub blank_vendor : Vendor
blank_vendor = record {
  id = "";
  name = "";
  contact_name = "";
  phone = "";
  email = "";
  address_line_1 = "";
  address_line_2 = "";
  city = "";
  state = "";
  pin_code = "";
  country = "";
  gstin = "";
  pan = "";
  website = "";
  bank_beneficiary_name = "";
  bank_name = "";
  bank_account_no = "";
  bank_ifsc = "";
  bank_branch = "";
  notes = "";
}

-- Whether a list of records has any.
abbrev pub has_any : {R : Type 0} → List R → Bool
has_any [] = false
has_any (r ∷ rs) = true

module _ (app : App) where
  open app use {Db, has_collection, find_record_by_id, find_records_by_filter, save, delete}

  abbrev pub new_link : String → String → ProjectVendor
  new_link project_id vendor_id = record { id = ""; project = project_id; vendor = vendor_id }

  -- The link that a vendor created inside a project gets; errors are dropped.
  unfoldable pub auto_link : String → String → Exec Db Error (Unit {0})
  auto_link project_id vendor_id = do
    known ← gets (has_collection project_vendors)
    if not (project_id == "") && known
        then ignore (save project_vendors (new_link project_id vendor_id))
        else pure tt

  -- `HandleVendorSave`
  unfoldable pub handle_vendor_save : String → Form → Exec Db Error (Unit {0})
  unfolding trimmed
  handle_vendor_save project_id form = do
    throw_if (trimmed form "name" == "") invalid_form
    known ← gets (has_collection vendors)
    throw_if (not known) (collection_not_found vendors)
    saved ← attempt (save_failed vendors) (save vendors (set_vendor_fields blank_vendor form))
    auto_link project_id saved.id

  -- `HandleVendorUpdate`
  unfoldable pub handle_vendor_update : String → Form → Exec Db Error (Unit {0})
  unfolding trimmed
  handle_vendor_update vendor_id form = do
    throw_if (vendor_id == "") missing_id
    found ← gets (find_record_by_id vendors vendor_id)
    r ← or_throw (record_not_found vendors) found
    throw_if (trimmed form "name" == "") invalid_form
    attempt (save_failed vendors) (save vendors (set_vendor_fields r form)) >> pure tt

  abbrev pub orders_of_vendor : String → Db → Option (List PurchaseOrder)
  orders_of_vendor vendor_id =
      find_records_by_filter purchase_orders (λ po. po.vendor == vendor_id) "" 1

  -- `HandleVendorDelete`
  unfoldable pub handle_vendor_delete : String → Exec Db Error (Unit {0})
  handle_vendor_delete vendor_id = do
    throw_if (vendor_id == "") missing_id
    found ← gets (find_record_by_id vendors vendor_id)
    r ← or_throw (record_not_found vendors) found
    orders ← gets (orders_of_vendor vendor_id)
    throw_if (has_any (or_empty orders)) vendor_has_orders
    attempt delete_failed (delete vendors r.id)

  abbrev pub links_of : (project_id vendor_id : String) → Db → Option (List ProjectVendor)
  links_of project_id vendor_id =
      find_records_by_filter project_vendors (λ l. l.project == project_id && l.vendor == vendor_id)
        "" 1

  -- The new link of `HandleVendorLink`.
  unfoldable pub create_link : (project_id vendor_id : String) → Exec Db Error (Unit {0})
  create_link project_id vendor_id = do
    known ← gets (has_collection project_vendors)
    throw_if (not known) (collection_not_found project_vendors)
    attempt (save_failed project_vendors) (save project_vendors (new_link project_id vendor_id))
    pure tt

  -- `HandleVendorLink`
  unfoldable pub handle_vendor_link : (project_id vendor_id : String) → Exec Db Error (Unit {0})
  handle_vendor_link project_id vendor_id = do
    throw_if (project_id == "" || vendor_id == "") missing_id
    project ← gets (find_record_by_id projects project_id)
    or_throw (record_not_found projects) project
    vendor ← gets (find_record_by_id vendors vendor_id)
    or_throw (record_not_found vendors) vendor
    existing ← gets (links_of project_id vendor_id)
    if has_any (or_empty existing) then pure tt else create_link project_id vendor_id

  -- `HandleVendorUnlink`
  unfoldable pub handle_vendor_unlink : (project_id vendor_id : String) → Exec Db Error (Unit {0})
  unfolding for_each
  handle_vendor_unlink project_id vendor_id = do
    throw_if (project_id == "" || vendor_id == "") missing_id
    orders ← gets (
        find_records_by_filter purchase_orders
          (λ po. po.project == project_id && po.vendor == vendor_id) "" 1)
    throw_if (has_any (or_empty orders)) vendor_has_orders
    links ← gets (links_of project_id vendor_id)
    for_each (or_empty links) (λ l. attempt delete_failed (delete project_vendors l.id))
