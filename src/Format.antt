-- ===== src/Format.antt =====
-- services/format.go: amounts in Indian notation. `fmt.Sprintf("%.2f", amount)` is the text `raw`
-- here, and the sign and the absolute value of the `float64` are parameters.
pub mod Grouping
mod Tests
use Prim.Native.Char.{Char, code}
use project_tracker.Prelude.{
  eqb, ℕ, zero, suc, ◌-◌, String, Bool, if◌then◌else◌, Option, none, some, ltb, leb,
}
use project_tracker.Prelude.Text.{◌<>◌, count}
use project_tracker.Prelude.Text.Slice.{take, drop}

-- What is left after the loop of `applyIndianGrouping`.
abbrev pub group_last : (remaining result : String) → String
group_last remaining result = if ltb 0 (count remaining) then remaining <> "," <> result else result

-- The loop of `applyIndianGrouping` and the statement after it; a round removes two digits, so the
-- number of digits is fuel enough.
unfoldable pub group_remaining : ℕ → (remaining result : String) → String
group_remaining zero remaining result = group_last remaining result
group_remaining (suc fuel) remaining result =
    let n = count remaining in
    let more =
      group_remaining fuel (take (n - 2) remaining) (drop (n - 2) remaining <> "," <> result) in
    if ltb 2 n then more else group_last remaining result

-- `applyIndianGrouping`
unfoldable pub apply_indian_grouping : String → String
unfolding group_remaining
apply_indian_grouping s =
    let n = count s in if leb n 3 then s else group_remaining n (take (n - 3) s) (drop (n - 3) s)

-- The text in front of the first point and the text behind it; `none` if there is no point.
unfoldable pub cut_point : String → Option (String × String)
cut_point String.[] = none
cut_point (String.◌∷◌ c s) =
    let rest = cut_point s in
    if eqb (code c) 46
    then some ("", s)
    else elim rest [ none ↦ none | some (front, back) ↦ some (String.◌∷◌ c front, back) ]

-- `FormatINR`: it panics if the text has no point, as the texts of infinite amounts have none.
unfoldable pub format_inr : (negative : Bool) (raw : String) → Option String
format_inr negative raw = elim (cut_point raw) [
  | none ↦ none
  | some (int_part, dec_part) ↦
      some
        ((if negative then "-" else "") <> "₹" <> apply_indian_grouping int_part <> "." <> dec_part)
]
