-- ===== src/Addresses/Tests.antt =====
-- Addresses, on an empty store in memory and a file of one row.
use project_tracker.Prelude.{
  ◌+◌, String, ◌≡◌, ◌↔◌, refl, true, none, some, List, [], ◌∷◌, ne_of_test,
}
use project_tracker.Prelude.Text.{replace_all, replace_from}
use project_tracker.Prelude.Text.Slice.{take, drop}
use project_tracker.Prelude.Text.Space.{trim_space, trim_right, trim_left, is_space, cons_trimmed}
use project_tracker.Store.Schema.{
  ProjectAddressSetting, project_address_settings, Address, addresses,
}
use project_tracker.Prelude.Exec.{for_each}
use project_tracker.Store.Memory.{MemDb, empty_db, put_table}
use project_tracker.Store.Memory.Lawful.{memory-Laws}
use project_tracker.Store.Samples.{app, every, june}
use project_tracker.Addresses.Pattern.{
  validate_gstin, matches, empty_or, pan_pattern, email_matches, local_rest, domain_rest,
}
use project_tracker.Addresses.Shape.{validate_gstin-pan}
use project_tracker.Addresses.Fields.{Texts, get_required_fields, validate_address}
use project_tracker.Addresses.Required.{Given, validate_address-Given}
use project_tracker.Addresses.Import.{
  Outside, map_headers_to_fields, row_data, row_errors, rows_errors, required_errors, required_keys,
  validate_import_field_formats, bind_all,
}
use project_tracker.Addresses.Validate.{validate_rows}
use project_tracker.Addresses.Commit.{commit_address_import, import_known, known_parents}
use project_tracker.Addresses.Counted.{Counted, commit_address_import-Counted}
use project_tracker.Addresses.Summary.{validate_rows-sum}
use project_tracker.Addresses.Delete.{
  handle_address_delete, nullify_linked_install_at_addresses, cut_loose,
}
use project_tracker.Addresses.Unlinked.{Unlinked, handle_address_delete-Unlinked}
use project_tracker.Addresses.Recheck.{validate_rows-passes}

abbrev outside : Outside
outside = record {
  read_csv = λ s. none;
  read_excel = λ s. none;
  quote = λ s. s;
  visit = λ k keys. keys;
}

abbrev headers : List String
headers = "Address Line 1 *" ∷ "City" ∷ "State" ∷ "Country" ∷ []

abbrev cells : List (List String)
cells = ("1 Main Road" ∷ "Pune" ∷ "MH" ∷ "India" ∷ []) ∷ []

abbrev city_row : Texts
city_row = ("city", "Pune") ∷ []

abbrev city_required : ProjectAddressSetting
city_required = record {
  id = "s1";
  project = "p1";
  address_type = "ship_to";
  flags = "req_city" ∷ [];
}

abbrev settings : MemDb
settings = put_table project_address_settings (city_required ∷ []) empty_db

email_example : email_matches "a.b@c.co.in" ≡ true
unfolding email_matches local_rest domain_rest
email_example = refl

validate_gstin-pan_example :
    matches pan_pattern (take 10 (drop 2 (trim_space (app.to_upper "27AAPFU0939F1ZV")))) ≡ true
unfolding validate_gstin empty_or matches trim_space trim_right trim_left is_space cons_trimmed
validate_gstin-pan_example =
    validate_gstin-pan app "27AAPFU0939F1ZV" (ne_of_test "27AAPFU0939F1ZV" "" refl) refl

validate_address-Given_example :
    (validate_address app "p1" "ship_to" city_row settings ≡ [])
    ↔ Given app (get_required_fields app "p1" "ship_to" settings) city_row
validate_address-Given_example = validate_address-Given app "p1" "ship_to" city_row settings

commit_address_import-Counted_example :
    Counted app outside "p1" "ship_to"
      (city_row ∷ [])
      empty_db
      (commit_address_import app outside "p1" "ship_to" (city_row ∷ []) empty_db)
commit_address_import-Counted_example =
    commit_address_import-Counted app outside "p1" "ship_to" (city_row ∷ []) empty_db
      (memory-Laws every june)

validate_rows-sum_example :
    (validate_rows app outside "a.csv" "p1" "ship_to" headers cells empty_db).valid_rows
      + (validate_rows app outside "a.csv" "p1" "ship_to" headers cells empty_db).error_rows
    ≡ 1
validate_rows-sum_example =
    validate_rows-sum app outside "a.csv" "p1" "ship_to" headers cells empty_db

validate_rows-passes_example :
    commit_address_import app outside "p1" "ship_to"
      ((validate_rows app outside "a.csv" "p1" "ship_to" headers cells empty_db).parsed_rows)
      empty_db
    ≡ import_known app outside "p1" "ship_to"
        ((validate_rows app outside "a.csv" "p1" "ship_to" headers cells empty_db).parsed_rows)
        (known_parents app outside "p1" "ship_to" empty_db)
        empty_db
unfolding validate_rows rows_errors row_errors required_errors required_keys
    validate_import_field_formats bind_all row_data map_headers_to_fields get_required_fields
    trim_space trim_right trim_left is_space cons_trimmed
validate_rows-passes_example =
    validate_rows-passes app outside "a.csv" "p1" "ship_to" headers cells empty_db refl

abbrev address : (id address_type ship_to_parent : String) → Address
address i kind parent = record {
  id = i;
  address_type = kind;
  project = "p1";
  ship_to_parent = parent;
  config = "";
  address_code = "";
  json_data = "";
  fields = [];
}

abbrev two_addresses : MemDb
two_addresses =
    put_table addresses (address "a1" "ship_to" "" ∷ address "a2" "install_at" "a1" ∷ []) empty_db

handle_address_delete-Unlinked_example :
    (d : MemDb) × Unlinked app "a1" d
    × (app.delete addresses "a1" d
        ≡ some (tt, (handle_address_delete app "p1" "ship-to" "a1" two_addresses).1))
unfolding handle_address_delete nullify_linked_install_at_addresses cut_loose for_each replace_all
    replace_from
handle_address_delete-Unlinked_example =
    handle_address_delete-Unlinked app (memory-Laws every june) "p1" "ship-to" "a1" two_addresses
      ((handle_address_delete app "p1" "ship-to" "a1" two_addresses).1) refl refl
