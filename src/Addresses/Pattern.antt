-- ===== src/Addresses/Pattern.antt =====
-- services/address_validation.go: the formats of tax numbers, codes and addresses. The regular
-- expressions but one are sequences of character classes, each with a number of repetitions.
use Prim.Native.Char.{Char, code}
use project_tracker.Prelude.{
  ℕ, zero, suc, String, ◌==◌, ◌&&◌, ◌||◌, Bool, true, false, if◌then◌else◌, List, [], ◌∷◌, eqb, leb,
}
use project_tracker.Prelude.Text.{count}
use project_tracker.Prelude.Text.Space.{trim_space}
use project_tracker.Store.App.{App}

-- A character class, by its ranges of code points.
abbrev pub Class : Type 0
Class = List (ℕ × ℕ)

abbrev pub in_class : Class → Char → Bool
in_class [] c = false
in_class ((low, high) ∷ ranges) c = (leb low (code c) && leb (code c) high) || in_class ranges c

abbrev pub digits : Class
digits = (48, 57) ∷ []

abbrev pub upper : Class
upper = (65, 90) ∷ []

abbrev pub upper_or_digit : Class
upper_or_digit = (48, 57) ∷ (65, 90) ∷ []

-- The classes of a pattern with its repetitions written out.
abbrev pub repeat : ℕ → Class → List Class → List Class
repeat zero k ks = ks
repeat (suc n) k ks = k ∷ repeat n k ks

-- `MatchString` of a pattern between `^` and `$`.
unfoldable pub matches : List Class → String → Bool
matches [] String.[] = true
matches [] (String.◌∷◌ c s) = false
matches (k ∷ ks) String.[] = false
matches (k ∷ ks) (String.◌∷◌ c s) = in_class k c && matches ks s

-- `gstinPattern`
abbrev pub gstin_pattern : List Class
gstin_pattern = repeat 2 digits (
    repeat 5 upper (
      repeat 4 digits (upper ∷ ((49, 57) ∷ (65, 90) ∷ []) ∷ ((90, 90) ∷ []) ∷ upper_or_digit ∷ [])))

-- `panPattern`
abbrev pub pan_pattern : List Class
pan_pattern = repeat 5 upper (repeat 4 digits (upper ∷ []))

-- `pinPattern`
abbrev pub pin_pattern : List Class
pin_pattern = ((49, 57) ∷ []) ∷ repeat 5 digits []

-- `phonePattern`
abbrev pub phone_pattern : List Class
phone_pattern = ((54, 57) ∷ []) ∷ repeat 9 digits []

-- `cinPattern`
abbrev pub cin_pattern : List Class
cin_pattern =
    upper ∷ repeat 5 digits (repeat 2 upper (repeat 4 digits (repeat 3 upper (repeat 6 digits []))))

-- A text that is empty after trimming is valid; any other has the length and the pattern.
unfoldable pub empty_or : ℕ → List Class → String → Bool
unfolding matches
empty_or n pattern s = s == "" || (eqb (count s) n && matches pattern s)

-- The part of an address in front of the `@`: letters, digits and `. _ % + -`.
abbrev pub local_class : Class
local_class =
    (97, 122) ∷ (65, 90) ∷ (48, 57) ∷ (46, 46) ∷ (95, 95) ∷ (37, 37) ∷ (43, 43) ∷ (45, 45) ∷ []

abbrev pub domain_class : Class
domain_class = (97, 122) ∷ (65, 90) ∷ (48, 57) ∷ (46, 46) ∷ (45, 45) ∷ []

abbrev pub letter : Class
letter = (97, 122) ∷ (65, 90) ∷ []

abbrev pub all_in : Class → String → Bool
all_in k String.[] = true
all_in k (String.◌∷◌ c s) = in_class k c && all_in k s

-- `[a-zA-Z0-9.\-]+\.[a-zA-Z]{2,}$` after at least one character of the domain: some dot is followed
-- by two or more letters and nothing else.
unfoldable pub domain_rest : String → Bool
domain_rest String.[] = false
domain_rest (String.◌∷◌ c s) =
    let more = domain_rest s in
    (eqb (code c) 46 && leb 2 (count s) && all_in letter s) || (in_class domain_class c && more)

abbrev pub domain : String → Bool
domain String.[] = false
domain (String.◌∷◌ c s) = in_class domain_class c && domain_rest s

-- After at least one character of the local part: an `@`, which is in no class, ends it.
unfoldable pub local_rest : String → Bool
unfolding domain_rest
local_rest String.[] = false
local_rest (String.◌∷◌ c s) =
    let more = local_rest s in if eqb (code c) 64 then domain s else in_class local_class c && more

-- `emailPattern`
unfoldable pub email_matches : String → Bool
unfolding local_rest
email_matches String.[] = false
email_matches (String.◌∷◌ c s) = in_class local_class c && local_rest s

-- `ValidatePINCode`
unfoldable pub validate_pin_code : String → Bool
unfolding empty_or
validate_pin_code pin = empty_or 6 pin_pattern (trim_space pin)

-- `ValidatePhone`
unfoldable pub validate_phone : String → Bool
unfolding empty_or
validate_phone phone = empty_or 10 phone_pattern (trim_space phone)

-- `ValidateEmail`
unfoldable pub validate_email : String → Bool
unfolding email_matches
validate_email email = let s = trim_space email in s == "" || email_matches s

module _ (app : App) where
  -- `ValidateGSTIN`
  unfoldable pub validate_gstin : String → Bool
  unfolding empty_or
  validate_gstin gstin = empty_or 15 gstin_pattern (trim_space (app.to_upper gstin))

  -- `ValidatePAN`
  unfoldable pub validate_pan : String → Bool
  unfolding empty_or
  validate_pan pan = empty_or 10 pan_pattern (trim_space (app.to_upper pan))

  -- `ValidateCIN`
  unfoldable pub validate_cin : String → Bool
  unfolding empty_or
  validate_cin cin = empty_or 21 cin_pattern (trim_space (app.to_upper cin))
