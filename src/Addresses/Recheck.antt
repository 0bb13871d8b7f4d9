-- ===== src/Addresses/Recheck.antt =====
-- services/csv_import.go and address_import.go: a file that passed is not refused when it is stored.
use project_tracker.Prelude.{
  ℕ, suc, String, ◌==◌, ◌&&◌, not, ◌≡◌, refl, ap, Bool, true, false, List, [], ◌∷◌, ◌++◌, contains,
  if◌then◌else◌,
}
use project_tracker.Store.App.{App}
use project_tracker.Addresses.Fields.{Texts, text_at, template_fields}
use project_tracker.Addresses.Import.{
  Outside, required_errors, validate_import_field_formats, reference_errors, row_errors,
  rows_errors,
}
use project_tracker.Addresses.Validate.{validate_rows, required_of, names_of, parsed}
use project_tracker.Addresses.Commit.{
  revalidate_import_rows, import_checked, import_known, known_parents, commit_address_import,
}

nil-++ : {A : Type 0} (xs ys : List A) → xs ++ ys ≡ [] → (xs ≡ []) × (ys ≡ [])
nil-++ [] ys h = (refl, h)
nil-++ (x ∷ xs) ys h = absurd (cc)

if_nil :
    {A : Type 0} (b : Bool) (x y : A)
    → (if b then x ∷ [] else []) ≡ []
    → (if b then y ∷ [] else []) ≡ []
if_nil true x y h = absurd (cc)
if_nil false x y h = refl

module _ (app : App) (outside : Outside) where
  open app use {Db}

  -- Whether a row passes does not depend on the words of the message.
  row_passes :
      (address_type here there : String) (required names : List String) (k : ℕ) (given : Texts)
      → row_errors app outside address_type here required names k given ≡ []
      → row_errors app outside address_type there required names k given ≡ []
  unfolding row_errors
  row_passes address_type here there required names k given h =
      let (front, back) =
        nil-++
          (required_errors app outside (template_fields address_type) k given
              (outside.visit k required)
            ++ validate_import_field_formats app outside k given)
          (reference_errors app outside address_type here names k given) h in
      rw front (
        if_nil
          (address_type == "install_at"
            && not (text_at "ship_to_reference" given == "")
            && not (contains (text_at "ship_to_reference" given) names))
          _ _ back)

  rows_pass :
      (address_type here there : String) (required names : List String) (k : ℕ) (rows : List Texts)
      → rows_errors app outside address_type here required names k rows ≡ []
      → rows_errors app outside address_type there required names k rows ≡ []
  unfolding rows_errors
  rows_pass address_type here there required names k [] h = refl
  rows_pass address_type here there required names k (given ∷ rows) h =
      let (first, rest) =
        nil-++ (row_errors app outside address_type here required names k given)
          (rows_errors app outside address_type here required names (suc k) rows) h in
      rw (row_passes address_type here there required names k given first)
        (rows_pass address_type here there required names (suc k) rows rest)

  -- If the summary of a file has no errors, then CommitAddressImport goes on to store its rows, as
  -- long as the store has not changed in between.
  pub validate_rows-passes :
      (file_name project_id address_type : String) (headers : List String)
      (data_rows : List (List String)) (db : Db)
      → (validate_rows app outside file_name project_id address_type headers data_rows db).errors
        ≡ []
      → commit_address_import app outside project_id address_type
          ((validate_rows app outside file_name project_id address_type headers data_rows
            db).parsed_rows)
          db
        ≡ import_known app outside project_id address_type
            ((validate_rows app outside file_name project_id address_type headers data_rows
              db).parsed_rows)
            (known_parents app outside project_id address_type db)
            db
  unfolding validate_rows commit_address_import revalidate_import_rows import_checked
  validate_rows-passes file_name project_id address_type headers data_rows db h =
      let again =
        rows_pass address_type " found in this project" " found"
          (required_of app outside project_id address_type db)
          (names_of app outside project_id address_type db) 2
          (parsed app outside address_type headers data_rows) h in
      ap
        (λ es.
          import_checked app outside project_id address_type
            (parsed app outside address_type headers data_rows) es db)
        again
