-- ===== src/Addresses/Import.antt =====
-- services/csv_import.go: the rows of an uploaded file. What the readers of CSV and Excel files give
-- is a parameter, the list of rows with the header first; so is `strconv.Quote`, and the order in
-- which Go visits the keys of a map, which may differ from row to row.
use project_tracker.Prelude.{
  ℕ, suc, ◌-◌, String, ◌==◌, ◌&&◌, ◌||◌, not, Bool, if◌then◌else◌, Option, none, some, List, [],
  ◌∷◌, ◌++◌, map, contains, leb,
}
use project_tracker.Prelude.Text.{◌<>◌, count}
use project_tracker.Prelude.Text.Slice.{take, drop}
use project_tracker.Prelude.Text.Space.{trim_space}
use project_tracker.Prelude.Exec.{Result, ok, err}
use project_tracker.Store.Schema.{Address, addresses}
use project_tracker.Store.App.{App}
use project_tracker.Store.Status.{or_empty}
use project_tracker.Addresses.Pattern.{
  validate_gstin, validate_pan, validate_pin_code, validate_phone, validate_email, validate_cin,
}
use project_tracker.Addresses.Fields.{
  Texts, text_at, TemplateField, template_fields, read_address_data,
}

-- `ValidationError`
pub record ValidationError : Type 0 where
  pub row : ℕ
  pub field : String
  pub message : String

-- `ValidationResult`
pub record ValidationResult : Type 0 where
  pub total_rows : ℕ
  pub valid_rows : ℕ
  pub error_rows : ℕ
  pub errors : List ValidationError
  pub parsed_rows : List Texts
  pub file_name : String

pub data FileError : Type 0 where
  unsupported_format unreadable too_short : FileError

-- What the code takes from outside: file readers, quoting, and the order of a map's keys.
pub record Outside : Type 0 where
  pub read_csv : String → Option (List (List String))
  pub read_excel : String → Option (List (List String))
  pub quote : String → String
  pub visit : ℕ → List String → List String

-- `parseCSV` and `parseExcel`, after the file has been read.
unfoldable pub parse_rows :
    Option (List (List String)) → Result FileError (List String × List (List String))
parse_rows none = err unreadable
parse_rows (some []) = err too_short
parse_rows (some (headers ∷ [])) = err too_short
parse_rows (some (headers ∷ row ∷ rows)) = ok (headers, row ∷ rows)

-- `strings.HasSuffix`
abbrev pub has_suffix : (s suffix : String) → Bool
has_suffix s suffix = leb (count suffix) (count s) && drop (count s - count suffix) s == suffix

-- `strings.TrimSuffix`
abbrev pub trim_suffix : (s suffix : String) → String
trim_suffix s suffix = if has_suffix s suffix then take (count s - count suffix) s else s

-- `m[k] = v` for each binding of a list, in order.
unfoldable pub bind_all : {V : Type 0} → List (String × V) → List (String × V) → List (String × V)
bind_all [] m = m
bind_all (b ∷ bs) m = bind_all bs (b ∷ m)

module _ (app : App) (outside : Outside) where
  open app use {Db, has_collection, find_records_by_filter, to_lower}
  open outside use {read_csv, read_excel, quote, visit}

  -- `labelToKey`
  abbrev pub label_to_key : List TemplateField → Texts
  label_to_key fields = bind_all (map (λ f. (to_lower (trim_space f.label), f.key)) fields) []

  -- The key of a column; the empty text for a column that is not known.
  abbrev pub key_of_header : Texts → String → String
  key_of_header keys h = text_at (trim_space (trim_suffix (to_lower (trim_space h)) " *")) keys

  -- `mapHeadersToFields`; its callers drop the headers that it does not know.
  unfoldable pub map_headers_to_fields : List String → List TemplateField → List String
  unfolding bind_all
  map_headers_to_fields headers fields = map (key_of_header (label_to_key fields)) headers

  -- The values of a row under the keys of its columns; a row may be shorter than the header.
  unfoldable pub row_data : (keys cells : List String) → Texts → Texts
  row_data [] cells given = given
  row_data (k ∷ keys) [] given = row_data keys [] (if k == "" then given else (k, "") ∷ given)
  row_data (k ∷ keys) (c ∷ cells) given =
      row_data keys cells (if k == "" then given else (k, trim_space c) ∷ given)

  -- The keys of `isRequired`.
  unfoldable pub required_keys : List String → List TemplateField → List String
  required_keys required [] = []
  required_keys required (f ∷ fs) =
      let rest = required_keys required fs in
      if f.always_required || contains f.key required then f.key ∷ rest else rest

  -- `keyToLabel[key]`, or the key itself.
  abbrev pub label_or_key : List TemplateField → String → String
  label_or_key fields key =
      let label = text_at key (bind_all (map (λ f. (f.key, f.label)) fields) []) in
      if label == "" then key else label

  -- The required fields that a row does not have.
  unfoldable pub required_errors :
      List TemplateField → ℕ → Texts → List String → List ValidationError
  required_errors fields row_num given [] = []
  required_errors fields row_num given (key ∷ keys) =
      let rest = required_errors fields row_num given keys in
      let label = label_or_key fields key in
      if text_at key given == ""
      then record { row = row_num; field = label; message = label <> " is required" } ∷ rest
      else rest

  abbrev pub import_rule :
      ℕ → (String → Bool) → Texts → (name label message : String) → List ValidationError
  import_rule row_num valid given name label message =
      if not (text_at name given == "") && not (valid (text_at name given))
      then record { row = row_num; field = label; message = message } ∷ []
      else []

  -- `validateImportFieldFormats`
  unfoldable pub validate_import_field_formats : ℕ → Texts → List ValidationError
  validate_import_field_formats row_num given =
      import_rule row_num validate_pin_code given "pin_code" "PIN Code"
        "PIN Code must be exactly 6 digits"
      ++ import_rule row_num validate_phone given "phone" "Phone"
          "Phone must be 10 digits starting with 6-9"
      ++ import_rule row_num validate_email given "email" "Email" "Invalid email format"
      ++ import_rule row_num (validate_gstin app) given "gstin" "GSTIN"
          "GSTIN must be 15 characters in format 22AAAAA0000A1Z5"
      ++ import_rule row_num (validate_pan app) given "pan" "PAN"
          "PAN must be 10 characters in format ABCDE1234F"
      ++ import_rule row_num (validate_cin app) given "cin" "CIN"
          "CIN must be 21 characters in format U12345AB1234ABC123456"

  -- The company names of addresses, in order; empty names are left out.
  unfoldable pub company_names : List Address → Texts
  company_names [] = []
  company_names (r ∷ rs) =
      let rest = company_names rs in
      let name = text_at "company_name" (read_address_data app r) in
      if name == "" then rest else (name, r.id) ∷ rest

  abbrev pub ship_to_rows : String → Db → List Address
  ship_to_rows project_id db = or_empty (
      find_records_by_filter addresses (λ a. a.project == project_id && a.address_type == "ship_to")
        "" 0 db)

  -- `loadShipToCompanyNames`: the keys of the map. It never returns an error.
  unfoldable pub load_ship_to_company_names : String → Db → List String
  unfolding company_names
  load_ship_to_company_names project_id db =
      if has_collection addresses db
      then map (λ b. b.0) (company_names (ship_to_rows project_id db))
      else []

  -- The check of the reference of an address to install at.
  abbrev pub reference_errors :
      (address_type where_text : String) → List String → ℕ → Texts → List ValidationError
  reference_errors address_type where_text names row_num given =
      let ref = text_at "ship_to_reference" given in
      if address_type == "install_at" && not (ref == "") && not (contains ref names)
      then record {
        row = row_num;
        field = "Ship To Reference";
        message = "No Ship To address with company name " <> quote ref <> where_text;
      }
        ∷ []
      else []

  -- All errors of one row.
  unfoldable pub row_errors :
      (address_type where_text : String)
      → (required names : List String) → ℕ
      → Texts
      → List ValidationError
  unfolding required_errors validate_import_field_formats bind_all
  row_errors address_type where_text required names row_num given =
      required_errors (template_fields address_type) row_num given (visit row_num required)
      ++ validate_import_field_formats row_num given
      ++ reference_errors address_type where_text names row_num given

  -- The loop over the rows; the first data row is row 2.
  unfoldable pub rows_errors :
      (address_type where_text : String)
      → (required names : List String) → ℕ
      → List Texts
      → List ValidationError
  rows_errors address_type where_text required names row_num [] = []
  rows_errors address_type where_text required names row_num (given ∷ rows) =
      row_errors address_type where_text required names row_num given
      ++ rows_errors address_type where_text required names (suc row_num) rows
