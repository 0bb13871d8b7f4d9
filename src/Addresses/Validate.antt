-- ===== src/Addresses/Validate.antt =====
-- services/csv_import.go: `ValidateAddressFile`, and the numbers it reports.
use project_tracker.Prelude.{
  ℕ, ◌-◌, String, ◌==◌, Bool, false, if◌then◌else◌, List, [], ◌∷◌, map, length, eqb, ◌||◌,
}
use project_tracker.Prelude.Exec.{Result, ok, err}
use project_tracker.Store.App.{App}
use project_tracker.Addresses.Fields.{Texts, template_fields, get_required_fields}
use project_tracker.Addresses.Import.{
  ValidationError, ValidationResult, FileError, unsupported_format, Outside, parse_rows, has_suffix,
  map_headers_to_fields, row_data, required_keys, load_ship_to_company_names, rows_errors,
}

-- `set[n]` for a map from numbers to flags, by its keys.
unfoldable pub has_number : ℕ → List ℕ → Bool
has_number n [] = false
has_number n (m ∷ ms) = eqb n m || has_number n ms

-- `for _, e := range errors { errorRowSet[e.Row] = true }`: the keys of the map.
unfoldable pub error_row_set : List ValidationError → List ℕ
unfolding has_number
error_row_set [] = []
error_row_set (e ∷ es) =
    let rest = error_row_set es in if has_number e.row rest then rest else e.row ∷ rest

module _ (app : App) (outside : Outside) where
  open app use {Db, to_lower}
  open outside use {read_csv, read_excel}

  -- The choice of a reader by the extension of the file's name.
  unfoldable pub read_file :
      (file_name content : String) → Result FileError (List String × List (List String))
  unfolding parse_rows
  read_file file_name content =
      if has_suffix (to_lower file_name) ".csv"
      then parse_rows (read_csv content)
      else if has_suffix (to_lower file_name) ".xlsx"
      then parse_rows (read_excel content)
      else err unsupported_format

  -- The keys that are required of a row.
  abbrev pub required_of : (project_id address_type : String) → Db → List String
  required_of project_id address_type db =
      required_keys app outside (get_required_fields app project_id address_type db)
        (template_fields address_type)

  -- The names that a reference may name; only looked up for addresses to install at.
  abbrev pub names_of : (project_id address_type : String) → Db → List String
  names_of project_id address_type db =
      if address_type == "install_at"
      then load_ship_to_company_names app outside project_id db
      else []

  -- The rows as maps.
  abbrev pub parsed : (address_type : String) → List String → List (List String) → List Texts
  parsed address_type headers data_rows =
      let keys = map_headers_to_fields app outside headers (template_fields address_type) in
      map (λ cells. row_data app outside keys cells []) data_rows

  -- The rest of `ValidateAddressFile`, once the file has been read.
  unfoldable pub validate_rows :
      (file_name project_id address_type : String)
      → List String
      → List (List String)
      → Db
      → ValidationResult
  unfolding error_row_set
  validate_rows file_name project_id address_type headers data_rows db =
      let errors =
        rows_errors app outside address_type " found in this project"
          (required_of project_id address_type db) (names_of project_id address_type db) 2
          (parsed address_type headers data_rows) in
      record {
        total_rows = length data_rows;
        valid_rows = length data_rows - length (error_row_set errors);
        error_rows = length (error_row_set errors);
        errors = errors;
        parsed_rows = parsed address_type headers data_rows;
        file_name = file_name;
      }

  -- `ValidateAddressFile`
  unfoldable pub validate_address_file :
      (content file_name project_id address_type : String) → Db → Result FileError ValidationResult
  validate_address_file content file_name project_id address_type db =
      elim (read_file file_name content) [
        | err e ↦ err e
        | ok (headers, data_rows) ↦
            ok (validate_rows file_name project_id address_type headers data_rows db)
      ]
