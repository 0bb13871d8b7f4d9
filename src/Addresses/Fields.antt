-- ===== src/Addresses/Fields.antt =====
-- services/address_validation.go, address_config.go and address_fields.go: the fields of an address,
-- which of them are required, and how they are read.
use project_tracker.Prelude.{
  String, ◌==◌, ◌&&◌, ◌||◌, not, Bool, true, false, if◌then◌else◌, none, some, List, [], ◌∷◌,
  contains, lookup, ◌++◌,
}
use project_tracker.Prelude.Text.{◌<>◌}
use project_tracker.Store.Schema.{Address, ProjectAddressSetting, project_address_settings}
use project_tracker.Store.App.{App}
use project_tracker.Store.Status.{or_empty}
use project_tracker.Addresses.Pattern.{
  validate_gstin, validate_pan, validate_pin_code, validate_phone, validate_email, validate_cin,
}

-- A Go map from texts to texts, the latest binding first.
abbrev pub Texts : Type 0
Texts = List (String × String)

-- `m[k]`: the empty text for a missing key.
abbrev pub text_at : String → Texts → String
text_at k m = elim (lookup k m) [ none ↦ "" | some v ↦ v ]

-- `AddressField`
pub record AddressField : Type 0 where
  pub name : String
  pub label : String

abbrev pub field : String → String → AddressField
field n l = record { name = n; label = l }

-- `AllAddressFields`
abbrev pub all_address_fields : List AddressField
all_address_fields =
    field "company_name" "Company Name"
    ∷ field "contact_person" "Contact Person"
    ∷ field "address_line_1" "Address Line 1"
    ∷ field "address_line_2" "Address Line 2"
    ∷ field "city" "City"
    ∷ field "state" "State"
    ∷ field "pin_code" "PIN Code"
    ∷ field "country" "Country"
    ∷ field "landmark" "Landmark"
    ∷ field "district" "District"
    ∷ field "phone" "Phone"
    ∷ field "email" "Email"
    ∷ field "fax" "Fax"
    ∷ field "website" "Website"
    ∷ field "gstin" "GSTIN"
    ∷ field "pan" "PAN"
    ∷ field "cin" "CIN"
    ∷ []

-- `TemplateField`, without the texts that only the sheet of instructions shows.
pub record TemplateField : Type 0 where
  pub key : String
  pub label : String
  pub always_required : Bool

abbrev pub optional_field : String → String → TemplateField
optional_field k l = record { key = k; label = l; always_required = false }

abbrev pub required_field : String → String → TemplateField
required_field k l = record { key = k; label = l; always_required = true }

-- `ShipToTemplateFields`
abbrev pub ship_to_template_fields : List TemplateField
ship_to_template_fields =
    optional_field "company_name" "Company Name"
    ∷ optional_field "contact_person" "Contact Person"
    ∷ required_field "address_line_1" "Address Line 1"
    ∷ optional_field "address_line_2" "Address Line 2"
    ∷ required_field "city" "City"
    ∷ required_field "state" "State"
    ∷ optional_field "pin_code" "PIN Code"
    ∷ required_field "country" "Country"
    ∷ optional_field "landmark" "Landmark"
    ∷ optional_field "district" "District"
    ∷ optional_field "phone" "Phone"
    ∷ optional_field "email" "Email"
    ∷ optional_field "fax" "Fax"
    ∷ optional_field "website" "Website"
    ∷ optional_field "gstin" "GSTIN"
    ∷ optional_field "pan" "PAN"
    ∷ optional_field "cin" "CIN"
    ∷ []

-- `InstallAtTemplateFields`
abbrev pub install_at_template_fields : List TemplateField
install_at_template_fields =
    required_field "ship_to_reference" "Ship To Reference" ∷ ship_to_template_fields

-- The choice of fields for a type of address.
abbrev pub template_fields : String → List TemplateField
template_fields address_type =
    if address_type == "install_at" then install_at_template_fields else ship_to_template_fields

-- The fixed fields of `ReadAddressData`.
abbrev pub fixed_fields : List String
fixed_fields =
    "company_name" ∷ "contact_person" ∷ "phone" ∷ "email" ∷ "gstin" ∷ "pan" ∷ "cin"
    ∷ "address_line_1" ∷ "address_line_2" ∷ "landmark" ∷ "district" ∷ "city" ∷ "state" ∷ "pin_code"
    ∷ "country" ∷ "fax" ∷ "website" ∷ []

-- The named fields that are not empty.
unfoldable pub non_empty_fields : List String → Texts → Texts
non_empty_fields [] m = []
non_empty_fields (f ∷ fs) m =
    let rest = non_empty_fields fs m in if text_at f m == "" then rest else (f, text_at f m) ∷ rest

-- One rule of `ValidateAddressFormat`: a value that is there and not valid gets a message.
abbrev pub format_error : (String → Bool) → Texts → String → String → Texts
format_error valid fields name message =
    if not (text_at name fields == "") && not (valid (text_at name fields))
    then (name, message) ∷ []
    else []

module _ (app : App) where
  open app use {Db, has_collection, find_records_by_filter, parse_map}

  -- `ReadAddressData`
  unfoldable pub read_address_data : Address → Texts
  unfolding non_empty_fields
  read_address_data rec =
      let fixed = non_empty_fields fixed_fields rec.fields in
      if rec.json_data == "" || rec.json_data == "null"
      then fixed
      else elim (parse_map rec.json_data) [ none ↦ fixed | some [] ↦ fixed | some (e ∷ m) ↦ e ∷ m ]

  -- The settings of a project for a type of address.
  abbrev pub settings_for : (project_id address_type : String) → Db → List ProjectAddressSetting
  settings_for project_id address_type db =
      if has_collection project_address_settings db
      then or_empty (
          find_records_by_filter project_address_settings
            (λ s. s.project == project_id && s.address_type == address_type) "" 1 db)
      else []

  -- The names of the fields whose flag is set.
  unfoldable pub flagged : List String → List AddressField → List String
  flagged flags [] = []
  flagged flags (f ∷ fs) =
      let rest = flagged flags fs in
      if contains ("req_" <> f.name) flags then f.name ∷ rest else rest

  -- `GetRequiredFields`: the keys of the map.
  unfoldable pub get_required_fields : (project_id address_type : String) → Db → List String
  unfolding flagged
  get_required_fields project_id address_type db = elim (settings_for project_id address_type db) [
    | [] ↦ []
    | s ∷ ss ↦ flagged s.flags all_address_fields
  ]

  -- The loop of `ValidateAddress`.
  unfoldable pub missing_fields : List String → Texts → List AddressField → Texts
  missing_fields flags form_data [] = []
  missing_fields flags form_data (f ∷ fs) =
      let rest = missing_fields flags form_data fs in
      if contains ("req_" <> f.name) flags && text_at f.name form_data == ""
      then (f.name, f.label <> " is required") ∷ rest
      else rest

  -- `ValidateAddress`
  unfoldable pub validate_address : (project_id address_type : String) → Texts → Db → Texts
  unfolding missing_fields
  validate_address project_id address_type form_data db =
      elim (settings_for project_id address_type db) [
        | [] ↦ []
        | s ∷ ss ↦ missing_fields s.flags form_data all_address_fields
      ]

  -- `ValidateAddressFormat`
  unfoldable pub validate_address_format : Texts → Texts
  validate_address_format fields =
      format_error (validate_gstin app) fields "gstin"
        "Invalid GSTIN format (expected: 15-character, e.g., 27AAPFU0939F1ZV)"
      ++ format_error (validate_pan app) fields "pan"
          "Invalid PAN format (expected: 10-character, e.g., ABCDE1234F)"
      ++ format_error validate_pin_code fields "pin_code"
          "Invalid PIN Code (expected: 6 digits, e.g., 400001)"
      ++ format_error validate_phone fields "phone"
          "Invalid phone number (expected: 10 digits starting with 6-9)"
      ++ format_error validate_email fields "email" "Invalid email format"
      ++ format_error (validate_cin app) fields "cin" "Invalid CIN format (expected: 21-character)"
