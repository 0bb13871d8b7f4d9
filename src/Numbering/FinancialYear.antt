-- ===== src/Numbering/FinancialYear.antt =====
-- `GetFinancialYear` against the Indian fiscal year, which begins in April.
use Prim.Native.Nat.{ℕ, ◌+◌, ◌*◌, ◌-◌, ◌/◌, ◌%◌, ◌≤◌}
use project_tracker.Prelude.{◌≡◌, arith}
use project_tracker.Prelude.Int.{pos, suc-pos, ◌-ℤ◌}
use project_tracker.Prelude.Text.{◌<>◌, zero_padded, format_padded}
use project_tracker.Store.App.{Date}
use project_tracker.Numbering.Format.{start_year, get_financial_year}

-- The year in which the fiscal year of a date begins: the whole years among the months since
-- April of the year 0.
abbrev pub fiscal_start : Date → ℕ
fiscal_start d = (12 * d.year + d.month - 4) / 12

start_year-eq :
    (d : Date)
    → 1 ≤ d.year
    → d.year ≤ 9999
    → 1 ≤ d.month
    → d.month ≤ 12
    → start_year d ≡ pos (fiscal_start d)
unfolding start_year ◌-ℤ◌
start_year-eq d a b c e = ground arith

-- Of a date in the years 1 to 9999 the result is the last two digits of the year in which its
-- fiscal year begins, and those of the next year.
pub get_financial_year-eq :
    (d : Date)
    → 1 ≤ d.year
    → d.year ≤ 9999
    → 1 ≤ d.month
    → d.month ≤ 12
    → get_financial_year d
      ≡ zero_padded 2 (fiscal_start d % 100) <> zero_padded 2 ((fiscal_start d + 1) % 100)
unfolding get_financial_year format_padded
get_financial_year-eq d a b c e =
    rw (start_year-eq d a b c e, suc-pos (fiscal_start d) (omega arith))
