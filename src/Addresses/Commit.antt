-- ===== src/Addresses/Commit.antt =====
-- services/address_import.go: storing the rows of a file, a hundred at a time. The text of an error
-- of PocketBase is left out of a message; indices and counts of rows are natural numbers.
use project_tracker.Prelude.{
  ℕ, zero, suc, ◌+◌, String, ◌==◌, ◌&&◌, Bool, true, false, not, if◌then◌else◌, Option, none, some,
  List, [], ◌∷◌, ◌++◌, map, length, lookup,
}
use project_tracker.Prelude.Text.{◌<>◌, replace_all, decimal}
use project_tracker.Prelude.Exec.{Result, ok, err, Exec, ◌>>=◌, ◌>>◌, pure, or_throw, attempt}
use project_tracker.Store.Schema.{Address, addresses, address_configs}
use project_tracker.Store.App.{App}
use project_tracker.Store.Status.{or_empty}
use project_tracker.Services.{Error, collection_not_found}
use project_tracker.Addresses.Fields.{Texts, text_at}
use project_tracker.Addresses.Import.{
  ValidationError, Outside, rows_errors, company_names, ship_to_rows, bind_all,
}
use project_tracker.Addresses.Validate.{required_of, names_of, error_row_set}

-- The message of an error of the import.
pub data Message : Type 0 where
  text : String → Message
  failed_to_save transaction_failed : Message

-- `ImportRowError`
pub record ImportRowError : Type 0 where
  pub row : ℕ
  pub field : String
  pub message : Message

-- `ImportResult`
pub record ImportResult : Type 0 where
  pub total_rows : ℕ
  pub imported : ℕ
  pub failed : ℕ
  pub errors : List ImportRowError
  pub rolled_back : Bool

-- `importBatchSize`
abbrev pub import_batch_size : ℕ
import_batch_size = 100

-- `toImportRowErrors`
abbrev pub to_import_row_errors : List ValidationError → List ImportRowError
to_import_row_errors ve =
    map (λ e. record { row = e.row; field = e.field; message = text e.message }) ve

-- `importAddressFieldKeys`
abbrev pub import_address_field_keys : List String
import_address_field_keys =
    "company_name" ∷ "contact_person" ∷ "phone" ∷ "email" ∷ "address_line_1" ∷ "address_line_2"
    ∷ "city" ∷ "state" ∷ "pin_code" ∷ "country" ∷ "landmark" ∷ "district" ∷ "fax" ∷ "website"
    ∷ "gstin" ∷ "pan" ∷ "cin" ∷ []

-- `dataMap`: the values of the row that are not empty.
unfoldable pub data_map : List String → Texts → Texts → Texts
data_map [] row m = m
data_map (k ∷ keys) row m =
    data_map keys row (if text_at k row == "" then m else (k, text_at k row) ∷ m)

-- The first elements of a list, and the rest.
abbrev pub first_of : {A : Type 0} → ℕ → List A → List A
first_of zero xs = []
first_of (suc n) [] = []
first_of (suc n) (x ∷ xs) = x ∷ first_of n xs

abbrev pub rest_of : {A : Type 0} → ℕ → List A → List A
rest_of zero xs = xs
rest_of (suc n) [] = []
rest_of (suc n) (x ∷ xs) = rest_of n xs

-- `chunkErrors` after the transaction.
abbrev pub chunk_result :
    {S : Type 0} → Result ImportRowError (Unit {0}) × S → List ImportRowError × S
chunk_result (ok a, db) = ([], db)
chunk_result (err e, db) = (e ∷ [], db)

-- `result` after a chunk.
abbrev pub count_chunk : ImportResult → ℕ → List ImportRowError → ImportResult
count_chunk result n [] = record result { imported = result.imported + n }
count_chunk result n (e ∷ es) = record result {
  errors = result.errors ++ e ∷ es;
  failed = result.failed + n;
  rolled_back = true;
}

-- The result when some row does not pass.
abbrev pub refused : ℕ → List ValidationError → ImportResult
refused total found = record {
  total_rows = total;
  imported = 0;
  failed = length (error_row_set found);
  errors = to_import_row_errors found;
  rolled_back = true;
}

abbrev pub blank_result : ℕ → ImportResult
blank_result total = record {
  total_rows = total;
  imported = 0;
  failed = 0;
  errors = [];
  rolled_back = false;
}

abbrev pub returned : {S : Type 0} → ImportResult × S → Result Error ImportResult × S
returned (r, db) = (ok r, db)

module _ (app : App) (outside : Outside) where
  open app use {
    Db, has_collection, find_records_by_filter, save, run_in_transaction, to_upper, format_map,
  }
  open outside use {quote}

  -- `buildShipToLookup`
  unfoldable pub build_ship_to_lookup : String → Db → Option Texts
  unfolding company_names bind_all
  build_ship_to_lookup project_id db =
      if has_collection addresses db
      then some (bind_all (company_names app outside (ship_to_rows app outside project_id db)) [])
      else none

  -- The id of the configuration for the type of address.
  abbrev pub config_of : (project_id address_type : String) → Db → String
  config_of project_id address_type db =
      if has_collection address_configs db
      then elim (or_empty (
          find_records_by_filter address_configs
            (λ c. c.project == project_id && c.address_type == address_type) "" 1 db)) [
              | [] ↦ ""
              | c ∷ cs ↦ c.id
            ]
      else ""

  abbrev pub address_code_of : ℕ → Texts → String
  address_code_of number m =
      let name = text_at "company_name" m in
      let code = if name == "" then "IMPORT-" <> decimal number else name in
      replace_all (to_upper code) " " "-"

  -- The new address of a row, but for its parent.
  unfoldable pub new_address : (project_id address_type : String) → ℕ → Texts → Db → Address
  unfolding data_map
  new_address project_id address_type number row db =
      let m = data_map import_address_field_keys row [] in
      record {
        id = "";
        address_type = address_type;
        project = project_id;
        ship_to_parent = "";
        config = config_of project_id address_type db;
        address_code = address_code_of number m;
        json_data = format_map m;
        fields = m;
      }

  -- `shipToLookup[ref]`; an address to ship to has no map.
  abbrev pub id_in : String → Option Texts → Option String
  id_in ref none = none
  id_in ref (some m) = lookup ref m

  abbrev pub not_found : ℕ → String → ImportRowError
  not_found row_num ref = record {
    row = row_num;
    field = "Ship To Reference";
    message = text ("Ship To " <> quote ref <> " not found");
  }

  -- The address that a row refers to; an address to install at must refer to a known one, if any.
  unfoldable pub parent_of : String → Option Texts → ℕ → Texts → Exec Db ImportRowError String
  parent_of address_type known row_num row =
      let ref = text_at "ship_to_reference" row in
      if address_type == "install_at" && not (ref == "")
      then or_throw (not_found row_num ref) (id_in ref known)
      else pure ""

  -- The body of the loop of `insertChunk`. `number` counts the rows of the file from 1.
  unfoldable pub insert_row :
      (project_id address_type : String)
      → Option Texts
      → ℕ
      → Texts
      → Exec Db ImportRowError (Unit {0})
  insert_row project_id address_type known number row = do
    parent ← parent_of address_type known (suc number) row
    made ← (λ db. (ok (new_address project_id address_type number row db), db))
    attempt (record { row = suc number; field = ""; message = failed_to_save })
        (save addresses (record made { ship_to_parent = parent }))
    pure tt

  unfoldable pub insert_rows :
      (project_id address_type : String)
      → Option Texts
      → ℕ
      → List Texts
      → Exec Db ImportRowError (Unit {0})
  insert_rows project_id address_type known number [] = pure tt
  insert_rows project_id address_type known number (row ∷ rows) =
      insert_row project_id address_type known number row
      >> insert_rows project_id address_type known (suc number) rows

  -- `insertChunk`: the error of the chunk, if there is one, and the store.
  unfoldable pub insert_chunk :
      (project_id address_type : String)
      → List Texts
      → ℕ
      → Option Texts
      → Db
      → List ImportRowError × Db
  insert_chunk project_id address_type rows start known db = chunk_result (
      run_in_transaction ImportRowError (Unit {0})
        (record { row = start + 2; field = ""; message = transaction_failed })
        (insert_rows project_id address_type known (suc start) rows) db)

  -- The loop over the chunks. Each takes at least one row, so the number of rows is fuel enough.
  unfoldable pub insert_chunks :
      ℕ
      → (project_id address_type : String) → Option Texts
      → ℕ
      → List Texts
      → ImportResult
      → Db
      → ImportResult × Db
  insert_chunks fuel project_id address_type known start [] result db = (result, db)
  insert_chunks zero project_id address_type known start (row ∷ rows) result db = (result, db)
  insert_chunks (suc fuel) project_id address_type known start (row ∷ rows) result db =
      let chunk = first_of import_batch_size (row ∷ rows) in
      let done = insert_chunk project_id address_type chunk start known db in
      insert_chunks fuel project_id address_type known (start + import_batch_size)
        (rest_of import_batch_size (row ∷ rows)) (count_chunk result (length chunk) done.0) done.1

  -- `revalidateImportRows`
  unfoldable pub revalidate_import_rows :
      (project_id address_type : String) → List Texts → Db → List ValidationError
  revalidate_import_rows project_id address_type rows db =
      rows_errors app outside address_type " found"
        (required_of app outside project_id address_type db)
        (names_of app outside project_id address_type db) 2 rows

  -- The addresses that rows may refer to; `none` inside for a type that needs none, and outside for
  -- an error.
  abbrev pub known_parents : (project_id address_type : String) → Db → Option (Option Texts)
  known_parents project_id address_type db =
      if address_type == "install_at"
      then elim (build_ship_to_lookup project_id db) [ none ↦ none | some m ↦ some (some m) ]
      else some none

  -- The import of rows that passed, once the addresses they may refer to are known.
  unfoldable pub import_known :
      (project_id address_type : String)
      → List Texts
      → Option (Option Texts)
      → Exec Db Error ImportResult
  import_known project_id address_type rows none db = (err (collection_not_found addresses), db)
  import_known project_id address_type rows (some known) db =
      if has_collection addresses db
      then returned (
          insert_chunks (length rows) project_id address_type known 0 rows
            (blank_result (length rows)) db)
      else (err (collection_not_found addresses), db)

  unfoldable pub import_checked :
      (project_id address_type : String)
      → List Texts
      → List ValidationError
      → Exec Db Error ImportResult
  import_checked project_id address_type rows (e ∷ es) db =
      (ok (refused (length rows) (e ∷ es)), db)
  import_checked project_id address_type rows [] db =
      import_known project_id address_type rows (known_parents project_id address_type db) db

  -- `CommitAddressImport`
  unfoldable pub commit_address_import :
      (project_id address_type : String) → List Texts → Exec Db Error ImportResult
  commit_address_import project_id address_type rows db =
      import_checked project_id address_type rows
        (revalidate_import_rows project_id address_type rows db) db
