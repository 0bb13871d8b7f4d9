-- ===== src/Words.antt =====
-- services/po_pricing.go: `AmountToWords`. Reading `ones` or
-- `tens` past the end is a panic, which is `none` here.
pub mod Panics
mod Tests
use project_tracker.Prelude.{
  ℕ, zero, suc, ◌/◌, ◌%◌, String, Bool, true, false, if◌then◌else◌, Option, none, some, List, [],
  ◌∷◌, ◌++◌, leb, ltb, eqb,
}
use project_tracker.Prelude.Int.{ℤ, pos, negsuc, eqb_ℤ}
use project_tracker.Prelude.Text.{◌<>◌}
use project_tracker.Store.Schema.{Float64}
use project_tracker.Store.App.{App}

abbrev pub ones : List String
ones =
    "" ∷ "One" ∷ "Two" ∷ "Three" ∷ "Four" ∷ "Five" ∷ "Six" ∷ "Seven" ∷ "Eight" ∷ "Nine" ∷ "Ten"
    ∷ "Eleven" ∷ "Twelve" ∷ "Thirteen" ∷ "Fourteen" ∷ "Fifteen" ∷ "Sixteen" ∷ "Seventeen"
    ∷ "Eighteen" ∷ "Nineteen" ∷ []

abbrev pub tens : List String
tens =
    "" ∷ "" ∷ "Twenty" ∷ "Thirty" ∷ "Forty" ∷ "Fifty" ∷ "Sixty" ∷ "Seventy" ∷ "Eighty" ∷ "Ninety"
    ∷ []

-- `xs[i]`
unfoldable pub get_elem? : List String → ℕ → Option String
get_elem? [] i = none
get_elem? (x ∷ xs) zero = some x
get_elem? (x ∷ xs) (suc i) = get_elem? xs i

-- A step that may panic, then the rest.
abbrev pub then_words : Option String → (String → Option String) → Option String
then_words none f = none
then_words (some w) f = f w

-- `convertUnder100`
unfoldable pub convert_under_100 : ℕ → Option String
unfolding get_elem?
convert_under_100 n =
    if ltb n 20
    then get_elem? ones n
    else then_words (get_elem? tens (n / 10)) (λ t.
      if eqb (n % 10) 0
      then some t
      else then_words (get_elem? ones (n % 10)) (λ o. some (t <> " " <> o)))

-- `strings.Join(parts, " ")`
unfoldable pub join_words : List String → String
join_words [] = ""
join_words (p ∷ []) = p
join_words (p ∷ q ∷ parts) = p <> " " <> join_words (q ∷ parts)

-- What is appended to the parts: the words of a count, then its unit.
abbrev pub append_words : Option String → String → List String → Option (List String)
append_words none unit parts = none
append_words (some w) unit parts = some (parts ++ (w <> unit) ∷ [])

abbrev pub then_parts : Option (List String) → (List String → Option String) → Option String
then_parts none f = none
then_parts (some parts) f = f parts

abbrev pub is_nil : List String → Bool
is_nil [] = true
is_nil (p ∷ ps) = false

abbrev pub with_and : List String → String → String
with_and parts w = if is_nil parts then w else "and " <> w

-- The remaining one to ninety-nine.
unfoldable pub remaining : ℕ → List String → Option String
unfolding join_words
remaining n parts =
    if ltb 0 n
    then then_words (convert_under_100 n) (λ w. some (join_words (parts ++ with_and parts w ∷ [])))
    else some (join_words parts)

unfoldable pub hundreds : ℕ → List String → Option String
hundreds n parts =
    if leb 100 n
    then then_parts (append_words (get_elem? ones (n / 100)) " Hundred" parts) (remaining (n % 100))
    else remaining n parts

unfoldable pub thousands : ℕ → List String → Option String
thousands n parts =
    if leb 1000 n
    then then_parts (append_words (convert_under_100 (n / 1000)) " Thousand" parts)
        (hundreds (n % 1000))
    else hundreds n parts

unfoldable pub lakhs : ℕ → List String → Option String
lakhs n parts =
    if leb 100000 n
    then then_parts (append_words (convert_under_100 (n / 100000)) " Lakhs" parts)
        (thousands (n % 100000))
    else thousands n parts

-- `convertToIndianWords`; a negative number passes none of the tests.
unfoldable pub convert_to_indian_words : ℤ → Option String
unfolding join_words
convert_to_indian_words (pos n) =
    if eqb n 0
    then some ""
    else if leb 10000000 n
    then then_parts (append_words (convert_under_100 (n / 10000000)) " Crores" [])
        (lakhs (n % 10000000))
    else lakhs n []
convert_to_indian_words (negsuc n) = some (join_words [])

-- The words for a number of rupees.
unfoldable pub rupees_to_words : ℤ → Option String
rupees_to_words rupees =
    if eqb_ℤ rupees (pos 0)
    then some "Zero Rupees Only/-"
    else then_words (convert_to_indian_words rupees) (λ w. some (w <> " Rupees Only/-"))

module _ (app : App) where
  open app use {float_lt, float_zero, float_neg, float_round, int_of_float}

  -- The calls of `AmountToWords`, which calls itself for a negative amount; without fuel the stack
  -- is used up, which ends the program as a panic does.
  unfoldable pub amount_to_words_within : ℕ → Float64 → Option String
  unfolding rupees_to_words
  amount_to_words_within zero amount = none
  amount_to_words_within (suc fuel) amount =
      let negated = amount_to_words_within fuel (float_neg amount) in
      if float_lt amount float_zero
      then then_words negated (λ w. some ("Negative " <> w))
      else rupees_to_words (int_of_float (float_round amount))

  -- `AmountToWords`: the negative of a negative amount is not negative, so two calls are enough.
  unfoldable pub amount_to_words : Float64 → Option String
  unfolding amount_to_words_within
  amount_to_words amount = amount_to_words_within 2 amount
