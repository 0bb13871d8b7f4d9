-- ===== src/Store/App.antt =====
-- The application object `*pocketbase.PocketBase` that services and handlers are given, and what
-- else they take from outside the repository: the clock and the arithmetic of `float64`. PocketBase
-- is a third-party library, so it is a parameter here; `Laws` states what the code relies on.
use project_tracker.Prelude.{
  ℕ, ◌≡◌, ◌≢◌, ◌⊎◌, String, Bool, true, false, Option, none, some, List, [], All, Any,
}
use project_tracker.Prelude.Int.{ℤ}
use project_tracker.Prelude.Exec.{Result, ok, err}
use project_tracker.Store.Schema.{Float64, Collection, Row, row_id, with_id}

-- A date of the civil calendar: the year, month and day of a `time.Time`.
pub record Date : Type 0 where
  pub year : ℕ
  pub month : ℕ
  pub day : ℕ

pub record App : Type 1 where
  -- What the database holds.
  pub Db : Type 0
  -- `FindCollectionByNameOrId` finds the collection.
  pub has_collection : Collection → Db → Bool
  -- `FindRecordById`; `none` is its error.
  pub find_record_by_id : (c : Collection) → String → Db → Option (Row c)
  -- `FindRecordsByFilter` with a filter, a sort key and a limit (0 for none); `none` is its error.
  pub find_records_by_filter :
      (c : Collection) → (Row c → Bool) → String → ℕ → Db → Option (List (Row c))
  -- `Save`, with the record as it is afterwards; `none` is its error.
  pub save : (c : Collection) → Row c → Db → Option (Row c × Db)
  -- `Delete`; `none` is its error.
  pub delete : (c : Collection) → String → Db → Option (Unit {0} × Db)
  -- `RunInTransaction`; the first value is the error of a commit that fails.
  pub run_in_transaction : (E A : Type 0) → E → (Db → Result E A × Db) → Db → Result E A × Db
  -- `time.Now()`, as a date and as `UTC().Format(time.RFC3339)`.
  pub today : Date
  pub now_rfc3339 : String
  -- `time.Parse("2006-01-02", s)` and `t.Format("2006-01-02")`.
  pub parse_date : String → Option Date
  pub format_date : Date → String
  -- `float64` multiplication, addition, division by 100.0, and the conversion `float64(n)`.
  pub float_mul : Float64 → Float64 → Float64
  pub float_add : Float64 → Float64 → Float64
  pub float_div_100 : Float64 → Float64
  pub float_of_int : ℤ → Float64
  -- Further `float64` operations: `-`, `/`, `<`, `==`, `math.Round`, the sign, and `int64(x)`.
  pub float_sub : Float64 → Float64 → Float64
  pub float_div : Float64 → Float64 → Float64
  pub float_lt : Float64 → Float64 → Bool
  pub float_eq : Float64 → Float64 → Bool
  pub float_round : Float64 → Float64
  pub float_neg : Float64 → Float64
  pub int_of_float : Float64 → ℤ
  -- `strconv.ParseFloat(s, 64)`; `none` is its error.
  pub parse_float : String → Option Float64
  -- `strings.ToUpper` and `strings.ToLower`, which depend on Unicode tables.
  pub to_upper : String → String
  pub to_lower : String → String
  -- `json.Unmarshal` and `json.Marshal` of a map from texts to texts.
  pub parse_map : String → Option (List (String × String))
  pub format_map : List (String × String) → String
  -- The zero value of a number field that was not set.
  pub float_zero : Float64

-- What the code relies on. Each law is about one call of the store.
pub record Laws (app : App) : Type 1 where
  -- A lookup by id returns the record of that id.
  pub id-find :
      (c : Collection) (i : String) (db : app.Db) (r : Row c)
      → app.find_record_by_id c i db ≡ some r
      → row_id c r ≡ i
  -- No record has the empty id.
  pub find_empty : (c : Collection) (db : app.Db) → app.find_record_by_id c "" db ≡ none
  -- A saved record keeps its id if it has one, and is stored as it was given.
  pub save_old :
      (c : Collection) (r : Row c) (db : app.Db) {r' : Row c} {db' : app.Db}
      → app.save c r db ≡ some (r', db')
      → row_id c r ≢ ""
      → r' ≡ r
  -- A new record gets an id that no record of its collection has.
  pub save_new :
      (c : Collection) (r : Row c) (db : app.Db) {r' : Row c} {db' : app.Db}
      → app.save c r db ≡ some (r', db')
      → row_id c r ≡ ""
      → (i : String) × (i ≢ "") × (r' ≡ with_id c i r) × (app.find_record_by_id c i db ≡ none)
  -- A saved record is found, and every other record is as before.
  pub find-save_self :
      (c : Collection) (r : Row c) (db : app.Db) {r' : Row c} {db' : app.Db}
      → app.save c r db ≡ some (r', db')
      → app.find_record_by_id c (row_id c r') db' ≡ some r'
  pub find-save_ne :
      (c : Collection) (r : Row c) (db : app.Db) {r' : Row c} {db' : app.Db} (i : String)
      → app.save c r db ≡ some (r', db')
      → i ≢ row_id c r'
      → app.find_record_by_id c i db' ≡ app.find_record_by_id c i db
  pub find-save_other :
      (c : Collection) (r : Row c) (db : app.Db) {r' : Row c} {db' : app.Db} (d : Collection)
      (i : String)
      → app.save c r db ≡ some (r', db')
      → d ≢ c
      → app.find_record_by_id d i db' ≡ app.find_record_by_id d i db
  -- A query returns stored records that pass the filter.
  pub query_sound :
      (c : Collection) (p : Row c → Bool) (sort : String) (limit : ℕ) (db : app.Db)
      {rs : List (Row c)}
      → app.find_records_by_filter c p sort limit db ≡ some rs
      → All (λ r. (p r ≡ true) × (app.find_record_by_id c (row_id c r) db ≡ some r)) rs
  -- With no limit it returns all of them, and with a limit of one it misses none if it is empty.
  pub query_complete :
      (c : Collection) (p : Row c → Bool) (sort : String) (db : app.Db) {rs : List (Row c)}
      (i : String) (r : Row c)
      → app.find_records_by_filter c p sort 0 db ≡ some rs
      → app.find_record_by_id c i db ≡ some r
      → p r ≡ true
      → Any (λ r'. r' ≡ r) rs
  pub query_none :
      (c : Collection) (p : Row c → Bool) (sort : String) (db : app.Db) (i : String) (r : Row c)
      → app.find_records_by_filter c p sort 1 db ≡ some []
      → app.find_record_by_id c i db ≡ some r
      → p r ≡ false
  -- A transaction that fails leaves the store as it was; one that succeeds is committed, or fails.
  pub transaction_err :
      (E A : Type 0) (e : E) (f : app.Db → Result E A × app.Db) (db : app.Db) {x : E} {db' : app.Db}
      → f db ≡ (err x, db')
      → app.run_in_transaction E A e f db ≡ (err x, db)
  pub transaction_ok :
      (E A : Type 0) (e : E) (f : app.Db → Result E A × app.Db) (db : app.Db) {a : A} {db' : app.Db}
      → f db ≡ (ok a, db')
      → (app.run_in_transaction E A e f db ≡ (ok a, db'))
        ⊎ (app.run_in_transaction E A e f db ≡ (err e, db))
