-- ===== src/Serials/Tests.antt =====
-- The checks on serials, on a short list.
use project_tracker.Prelude.{String, ◌≡◌, ◌↔◌, true, List, [], ◌∷◌, All, none, lookup, length}
use project_tracker.Prelude.Int.{pos}
use project_tracker.Serials.{validate_serials}
use project_tracker.Serials.Decides.{Distinct, cleaned, validate_serials-valid_iff}

abbrev two_serials : List String
two_serials = "SN-1 " ∷ "SN-2" ∷ []

validate_serials-valid_iff_example : ((validate_serials two_serials (pos 2) []).valid ≡ true) ↔ (
    Distinct (cleaned two_serials)
    × All (λ s. lookup {V = String} s [] ≡ none) (cleaned two_serials)
    × (pos (length (cleaned two_serials)) ≡ pos 2))
validate_serials-valid_iff_example = validate_serials-valid_iff two_serials (pos 2) []
