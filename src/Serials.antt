-- ===== src/Serials.antt =====
-- services/serial_validation.go: the checks on a list of serial numbers. A map from serials to
-- flags is the list of its keys, and `existingSerials` is an association list.
pub mod Decides
mod Tests
use project_tracker.Prelude.{
  ℕ, String, Bool, true, false, not, ◌==◌, ◌&&◌, if◌then◌else◌, Option, none, some, List, [], ◌∷◌,
  ◌++◌, contains, lookup, length, eqb,
}
use project_tracker.Prelude.Text.Space.{trim_space}
use project_tracker.Prelude.Int.{ℤ, pos, eqb_ℤ}

pub record SerialConflict : Type 0 where
  pub serial : String
  pub existing_dc : String

pub record SerialValidationResult : Type 0 where
  pub valid : Bool
  pub duplicates_in_input : List String
  pub duplicates_in_db : List SerialConflict
  pub count_mismatch : Bool
  pub expected : ℤ
  pub got : ℕ

-- The serials seen so far, in order of their first occurrence, and the repeated ones.
pub record Scan : Type 0 where
  pub seen : List String
  pub repeated : List String

-- One round of the first loop, on a trimmed serial.
unfoldable pub scan_one : String → Scan → Scan
scan_one s acc =
    if s == ""
    then acc
    else if contains s acc.seen
    then record acc { repeated = acc.repeated ++ s ∷ [] }
    else record acc { seen = acc.seen ++ s ∷ [] }

unfoldable pub scan : List String → Scan → Scan
scan [] acc = acc
scan (s ∷ input) acc = scan input (scan_one (trim_space s) acc)

-- The second loop: the serials that the map has, with the number of their challan.
unfoldable pub conflicts : List (String × String) → List String → List SerialConflict
conflicts existing [] = []
conflicts existing (s ∷ cleaned) =
    let rest = conflicts existing cleaned in
    elim (lookup s existing) [
      | none ↦ rest
      | some dc_num ↦ record { serial = s; existing_dc = dc_num } ∷ rest
    ]

unfoldable pub is_empty {ℓ} : {A : Type ℓ} → List A → Bool
is_empty [] = true
is_empty (x ∷ xs) = false

-- `ValidateSerials`
unfoldable pub validate_serials : List String → ℤ → List (String × String) → SerialValidationResult
unfolding is_empty scan scan_one conflicts
validate_serials input expected_qty existing =
    let acc = scan input (record { seen = []; repeated = [] }) in
    let found = conflicts existing acc.seen in
    let mismatch = not (eqb_ℤ (pos (length acc.seen)) expected_qty) in
    record {
      valid = is_empty acc.repeated && (is_empty found && not mismatch);
      duplicates_in_input = acc.repeated;
      duplicates_in_db = found;
      count_mismatch = mismatch;
      expected = if mismatch then expected_qty else pos 0;
      got = if mismatch then length acc.seen else 0;
    }
