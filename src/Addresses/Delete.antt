-- ===== src/Addresses/Delete.antt =====
-- handlers/address_delete.go: the removal of addresses. An address to ship to may be the parent of
-- addresses to install at, which are cut loose first. The numbers shown to the user are left out.
use project_tracker.Prelude.{
  String, ◌==◌, ◌&&◌, ◌||◌, not, Bool, if◌then◌else◌, Option, none, some, List, [], ◌∷◌, contains,
  length, ℕ, eqb, ◌++◌,
}
use project_tracker.Prelude.Text.{replace_all, ◌<>◌}
use project_tracker.Prelude.Exec.{
  Result, ok, Exec, ◌>>=◌, ◌>>◌, pure, gets, or_throw, throw_if, attempt, for_each,
}
use project_tracker.Store.Schema.{Address, addresses}
use project_tracker.Store.App.{App}
use project_tracker.Services.{
  Error, missing_id, invalid_address_type, record_not_found, not_in_project, collection_not_found,
  query_linked_failed, nullify_failed, delete_failed, no_selection,
}

-- The keys of `AddressTypeDisplayLabels`.
abbrev pub address_types : List String
address_types =
    "bill_from" ∷ "ship_from" ∷ "dispatch_from" ∷ "bill_to" ∷ "ship_to" ∷ "install_at" ∷ []

-- `AddressType(strings.ReplaceAll(slug, "-", "_"))`
abbrev pub type_of_slug : String → String
type_of_slug slug = replace_all slug "-" "_"

-- Whether an address to install at refers to the address.
abbrev pub linked_to : String → Address → Bool
linked_to ship_to_id a = a.address_type == "install_at" && a.ship_to_parent == ship_to_id

module _ (app : App) where
  open app use {Db, has_collection, find_record_by_id, find_records_by_filter, save, delete}

  unfoldable pub cut_loose : Address → Exec Db Error (Unit {0})
  cut_loose rec =
      attempt (nullify_failed rec.id) (save addresses (record rec { ship_to_parent = "" }))
      >> pure tt

  -- `nullifyLinkedInstallAtAddresses`
  unfoldable pub nullify_linked_install_at_addresses : String → Exec Db Error (Unit {0})
  unfolding for_each
  nullify_linked_install_at_addresses ship_to_id = do
    known ← gets (has_collection addresses)
    throw_if (not known) (collection_not_found addresses)
    found ← gets (find_records_by_filter addresses (linked_to ship_to_id) "" 0)
    linked ← or_throw query_linked_failed found
    for_each linked cut_loose

  -- `countLinkedInstallAtAddresses`; `none` is an error.
  unfoldable pub count_linked_install_at_addresses : String → Db → Option ℕ
  count_linked_install_at_addresses ship_to_id db =
      if has_collection addresses db
      then elim (find_records_by_filter addresses (linked_to ship_to_id) "" 0 db) [
        | none ↦ none
        | some linked ↦ some (length linked)
      ]
      else none

  -- The links to an address that is deleted as one to ship to.
  abbrev pub release : (addr_type address_id : String) → Exec Db Error (Unit {0})
  release addr_type address_id =
      if addr_type == "ship_to" then nullify_linked_install_at_addresses address_id else pure tt

  -- `HandleAddressDelete`; the type comes from the address of the page.
  unfoldable pub handle_address_delete :
      (project_id slug address_id : String) → Exec Db Error (Unit {0})
  handle_address_delete project_id slug address_id = do
    throw_if (project_id == "" || slug == "" || address_id == "") missing_id
    throw_if (not (contains (type_of_slug slug) address_types)) invalid_address_type
    found ← gets (find_record_by_id addresses address_id)
    rec ← or_throw (record_not_found addresses) found
    throw_if (not (rec.project == project_id)) not_in_project
    release (type_of_slug slug) address_id
    attempt delete_failed (delete addresses rec.id)

  -- Errors of one address of a selection are kept as messages, and the next one is tried.
  abbrev pub dropped : Result Error (Unit {0}) × Db → Db
  dropped r = r.1

  abbrev pub delete_selected : (addr_type id : String) → Address → Db → List String × Db
  delete_selected addr_type id rec db =
      let db' = dropped (release addr_type id db) in
      elim (delete addresses rec.id db') [
        | none ↦ ((id <> ": delete failed") ∷ [], db')
        | some (u, db'') ↦ ([], db'')
      ]

  -- A round of the loop of `HandleAddressBulkDelete`.
  unfoldable pub delete_one : (project_id addr_type id : String) → Db → List String × Db
  delete_one project_id addr_type id db = elim (find_record_by_id addresses id db) [
    | none ↦ ((id <> ": not found") ∷ [], db)
    | some rec ↦
        if rec.project == project_id
        then delete_selected addr_type id rec db
        else ((id <> ": wrong project") ∷ [], db)
  ]

  unfoldable pub delete_all : (project_id addr_type : String) → List String → Db → List String × Db
  unfolding delete_one
  delete_all project_id addr_type [] db = ([], db)
  delete_all project_id addr_type (id ∷ ids) db =
      let (errors, db') = delete_one project_id addr_type id db in
      let (more, db'') = delete_all project_id addr_type ids db' in (errors ++ more, db'')

  -- `HandleAddressBulkDelete`: the messages.
  unfoldable pub handle_address_bulk_delete :
      (project_id slug : String) → List String → Exec Db Error (List String)
  handle_address_bulk_delete project_id slug ids = do
    throw_if (project_id == "" || slug == "") missing_id
    throw_if (not (contains (type_of_slug slug) address_types)) invalid_address_type
    throw_if (eqb (length ids) 0) no_selection
    λ db. let (errors, db') = delete_all project_id (type_of_slug slug) ids db in (ok errors, db')
