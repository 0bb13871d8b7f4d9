-- ===== src/Store/Memory.antt =====
-- A store in memory, as a value of the application interface: it shows that the interface's laws
-- can be met. `accepts` says which records a save takes, so that failing saves can be tried out.
mod Table
mod Db
pub mod Lawful
pub use Db.{MemDb, empty_db, table, put_table}
use Table.{
  find, without, select, fresh, id-find, select_sound, select_complete, find-fresh, fresh-nonempty,
  find-without_ne,
}
use Db.{table-put_self, table-put_ne, row_id-with_id}
use project_tracker.Prelude.Text.{count}
use project_tracker.Prelude.{
  ◌*◌, ◌+◌, ◌-◌, ◌/◌, ltb, eqb, ℕ, String, ◌≡◌, ◌≢◌, ◌⊎◌, inl, inr, refl, sym, ap, ◌∙◌, subst, Bool,
  true, false, Option, none, some, List, [], ◌∷◌, arith, eq_iff, eq_refl, ◌==◌, if◌then◌else◌, All,
  Any, Bool-cases, ne_of_test, test_of_ne,
}
use project_tracker.Prelude.Int.{ℤ, pos, pos_part}
use project_tracker.Prelude.Exec.{Result, ok, err}
use project_tracker.Store.Schema.{Collection, Row, row_id, with_id, Float64}
use project_tracker.Store.App.{App, Laws, Date}

abbrev pub find_in : (c : Collection) → String → MemDb → Option (Row c)
find_in c i db = if i == "" then none else find (row_id c) i (table c db)

abbrev pub has_id : (c : Collection) → (Row c → Bool) → Row c → Bool
has_id c p r = if row_id c r == "" then false else p r

abbrev pub identified : (c : Collection) → Row c → MemDb → Row c
identified c r db = if row_id c r == "" then with_id c (fresh (row_id c) (table c db)) r else r

abbrev pub stored : (c : Collection) → Row c → MemDb → MemDb
stored c r db = put_table c (r ∷ without (row_id c) (row_id c r) (table c db)) db

abbrev pub settle : {E A : Type 0} → MemDb → Result E A × MemDb → Result E A × MemDb
settle db (ok a, db') = (ok a, db')
settle db (err e, db') = (err e, db)

module _ (accepts : (c : Collection) → Row c → Bool) (day : Date) where
  abbrev pub memory : App
  memory = record {
    Db = MemDb;
    has_collection = λ c db. true;
    find_record_by_id = find_in;
    find_records_by_filter =
        λ c p sort limit db. some (select (row_id c) (has_id c p) (table c db) (table c db));
    save = λ c r db.
        if accepts c r then some (identified c r db, stored c (identified c r db) db) else none;
    delete = λ c i db. some (tt, put_table c (without (row_id c) i (table c db)) db);
    run_in_transaction = λ E A e f db. settle db (f db);
    today = day;
    now_rfc3339 = "2026-01-01T00:00:00Z";
    parse_date = λ s. none;
    format_date = λ d. "2026-01-01";
    float_mul = λ a b. record { bits = a.bits * b.bits };
    float_add = λ a b. record { bits = a.bits + b.bits };
    float_div_100 = λ a. a;
    float_of_int = λ n. record { bits = pos_part n };
    float_sub = λ a b. record { bits = a.bits - b.bits };
    float_div = λ a b. record { bits = a.bits / b.bits };
    float_lt = λ a b. ltb a.bits b.bits;
    float_eq = λ a b. eqb a.bits b.bits;
    float_round = λ a. a;
    float_neg = λ a. a;
    int_of_float = λ a. pos a.bits;
    parse_float = λ s. if s == "" then none else some (record { bits = count s });
    to_upper = λ s. s;
    to_lower = λ s. s;
    parse_map = λ s. none;
    format_map = λ m. "{}";
    float_zero = record { bits = 0 };
  }
