-- ===== src/Addresses/Summary.antt =====
-- services/csv_import.go: the rows with errors that the summary of a file counts are among its rows.
use project_tracker.Prelude.{
  ℕ, suc, ◌+◌, ◌≤◌, String, ◌==◌, ◌&&◌, not, ◌≡◌, inl, inr, refl, sym, ap, subst, Bool, true, false,
  List, [], ◌∷◌, ◌++◌, length, All, arith, Bool-cases, if◌then◌else◌, eqb, eqb_iff, map, contains,
}
use project_tracker.Store.App.{App}
use project_tracker.Addresses.Pattern.{
  validate_gstin, validate_pan, validate_pin_code, validate_phone, validate_email, validate_cin,
}
use project_tracker.Addresses.Fields.{Texts, TemplateField, text_at, template_fields}
use project_tracker.Addresses.Import.{
  Outside, ValidationError, required_errors, import_rule, validate_import_field_formats, row_errors,
  rows_errors, row_data, map_headers_to_fields,
}
use project_tracker.Addresses.Validate.{
  has_number, error_row_set, validate_rows, required_of, names_of, parsed,
}

-- All errors are about row `k`.
abbrev About : ℕ → List ValidationError → Type 0
About k es = All (λ e. e.row ≡ k) es

About-++ : (k : ℕ) (es fs : List ValidationError) → About k es → About k fs → About k (es ++ fs)
About-++ k [] fs h h' = h'
About-++ k (e ∷ es) fs (here, rest) h' = (here, About-++ k es fs rest h')

About-if :
    (k : ℕ) (b : Bool) (es fs : List ValidationError)
    → About k es
    → About k fs
    → About k (if b then es else fs)
About-if k true es fs h h' = h
About-if k false es fs h h' = h'

has-head : (k : ℕ) (ks : List ℕ) → has_number k (k ∷ ks) ≡ true
unfolding has_number
has-head k ks = let same : eqb k k ≡ true = (eqb_iff k k).1 refl in rw same refl

-- Errors of one row add at most one number, and that is the row's.
one_more :
    (k : ℕ) (e : ValidationError) (es fs : List ValidationError)
    → About k (e ∷ es)
    → (has_number k (error_row_set ((e ∷ es) ++ fs)) ≡ true)
      × (length (error_row_set ((e ∷ es) ++ fs)) ≤ suc (length (error_row_set fs)))
unfolding error_row_set
one_more k e [] fs (here, u) = elim (Bool-cases (has_number e.row (error_row_set fs))) [
  | inl known ↦
      rw known (subst (λ n. has_number n (error_row_set fs) ≡ true) here known, omega arith)
  | inr new ↦ rw new (
    subst (λ n. has_number k (n ∷ error_row_set fs) ≡ true) (sym here)
        (has-head k (error_row_set fs)),
    omega arith,
  )
]
one_more k e (d ∷ es) fs (here, rest) =
    let (known, few) = one_more k d es fs rest in
    let again : has_number e.row (error_row_set ((d ∷ es) ++ fs)) ≡ true =
      subst (λ n. has_number n (error_row_set ((d ∷ es) ++ fs)) ≡ true) (sym here) known in
    rw again (known, few)

at_most_one_more :
    (k : ℕ) (es fs : List ValidationError)
    → About k es
    → length (error_row_set (es ++ fs)) ≤ suc (length (error_row_set fs))
at_most_one_more k [] fs h = omega arith
at_most_one_more k (e ∷ es) fs h = (one_more k e es fs h).1

module _ (app : App) (outside : Outside) where
  open app use {Db}

  required-About :
      (fields : List TemplateField) (k : ℕ) (given : Texts) (keys : List String)
      → About k (required_errors app outside fields k given keys)
  unfolding required_errors
  required-About fields k given [] = tt
  required-About fields k given (key ∷ keys) =
      About-if k (text_at key given == "") _ (required_errors app outside fields k given keys)
        (refl, required-About fields k given keys) (required-About fields k given keys)

  rule-About :
      (k : ℕ) (valid : String → Bool) (given : Texts) (name label message : String)
      → About k (import_rule app outside k valid given name label message)
  rule-About k valid given name label message =
      About-if k (not (text_at name given == "") && not (valid (text_at name given))) _ []
        (refl, tt) tt

  formats-About :
      (k : ℕ) (given : Texts) → About k (validate_import_field_formats app outside k given)
  unfolding validate_import_field_formats
  formats-About k given =
      let rule = rule-About k in
      About-++ k _ _
        (About-++ k _ _
          (About-++ k _ _
            (About-++ k _ _
              (About-++ k _ _ (rule validate_pin_code given "pin_code" _ _)
                (rule validate_phone given "phone" _ _))
              (rule validate_email given "email" _ _))
            (rule (validate_gstin app) given "gstin" _ _))
          (rule (validate_pan app) given "pan" _ _))
        (rule (validate_cin app) given "cin" _ _)

  row-About :
      (address_type where_text : String) (required names : List String) (k : ℕ) (given : Texts)
      → About k (row_errors app outside address_type where_text required names k given)
  unfolding row_errors
  row-About address_type where_text required names k given =
      About-++ k _ _
        (About-++ k _ _ (required-About (template_fields address_type) k given _)
          (formats-About k given))
        (About-if k
          (address_type == "install_at"
            && not (text_at "ship_to_reference" given == "")
            && not (contains (text_at "ship_to_reference" given) names))
          _ [] (refl, tt) tt)

  few_rows :
      (address_type where_text : String) (required names : List String) (k : ℕ) (rows : List Texts)
      → length
          (error_row_set (rows_errors app outside address_type where_text required names k rows))
        ≤ length rows
  unfolding rows_errors error_row_set
  few_rows address_type where_text required names k [] = omega arith
  few_rows address_type where_text required names k (given ∷ rows) =
      let here = row_errors app outside address_type where_text required names k given in
      let later = rows_errors app outside address_type where_text required names (suc k) rows in
      omega (
        arith,
        at_most_one_more k here later (row-About address_type where_text required names k given),
        few_rows address_type where_text required names (suc k) rows,
      )

  length-map : {A B : Type 0} (f : A → B) (xs : List A) → length (map f xs) ≡ length xs
  length-map f [] = refl
  length-map f (x ∷ xs) = ap suc (length-map f xs)

  -- In the summary of a file, the rows with errors and the valid rows add up to all rows, so that
  -- the number of valid rows is never negative.
  pub validate_rows-sum :
      (file_name project_id address_type : String) (headers : List String)
      (data_rows : List (List String)) (db : Db)
      → (validate_rows app outside file_name project_id address_type headers data_rows
            db).valid_rows
          + (validate_rows app outside file_name project_id address_type headers data_rows
              db).error_rows
        ≡ length data_rows
  unfolding validate_rows
  validate_rows-sum file_name project_id address_type headers data_rows db = omega (
    arith,
    few_rows address_type " found in this project"
        (required_of app outside project_id address_type db)
        (names_of app outside project_id address_type db) 2
        (parsed app outside address_type headers data_rows),
    length-map
        (λ cells.
          row_data app outside
            (map_headers_to_fields app outside headers (template_fields address_type)) cells [])
        data_rows,
  )
