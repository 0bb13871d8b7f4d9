-- ===== src/Prelude/Text.antt =====
-- Texts, character by character: the functions of Go's `strings`, `strconv` and `fmt` that the
-- program calls, where they do not depend on Unicode tables.
pub mod Decimal
pub mod Replace
pub mod Slice
pub mod Space
use Prim.Native.Char.{Char, code}
use Prim.Native.Nat.{ℕ, zero, suc, ◌+◌, ◌-◌, ◌*◌, ◌/◌, ◌%◌, ◌<◌}
use Prim.Native.String.{String}
use mathlib.Core.Path.{◌≡◌, refl, ap, ◌∙◌}
use mathlib.Core.Logic.{◌≢◌, inl, inr}
use mathlib.Core.Bool.{Bool, true, false, ◌&&◌}
use native.Mathlib.Omega.{arith}
use project_tracker.Prelude.Tests.{eqb, if◌then◌else◌, Bool-cases}
use project_tracker.Prelude.Int.{ℤ, pos, negsuc}

-- Concatenation, character by character.
infixr 65 ◌<>◌
abbrev pub ◌<>◌ : String → String → String
String.[] <> t = t
(String.◌∷◌ c s) <> t = String.◌∷◌ c (s <> t)

-- The number of characters.
abbrev pub count : String → ℕ
count String.[] = 0
count (String.◌∷◌ c s) = suc (count s)

pub count-<> : (s t : String) → count (s <> t) ≡ count s + count t
count-<> String.[] t = omega arith
count-<> (String.◌∷◌ c s) t = omega (arith, count-<> s t)

-- `strings.HasPrefix(s, p)`
abbrev pub has_prefix : String → String → Bool
has_prefix String.[] s = true
has_prefix (String.◌∷◌ c p) String.[] = false
has_prefix (String.◌∷◌ c p) (String.◌∷◌ d s) = eqb (code c) (code d) && has_prefix p s

-- The text after `skip` more characters, with each occurrence of a non-empty `old` replaced.
unfoldable pub replace_from : (old new : String) → ℕ → String → String
replace_from old new skip String.[] = ""
replace_from old new (suc skip) (String.◌∷◌ c s) = replace_from old new skip s
replace_from old new zero (String.◌∷◌ c s) =
    let matched = new <> replace_from old new (count old - 1) s in
    let kept = String.◌∷◌ c (replace_from old new zero s) in
    if has_prefix old (String.◌∷◌ c s) then matched else kept

-- `strings.ReplaceAll(s, old, new)` for a non-empty `old`.
unfoldable pub replace_all : (s old new : String) → String
unfolding replace_from
replace_all s old new = replace_from old new 0 s

abbrev pub digit_char : ℕ → Char
digit_char zero = "0"
digit_char (suc zero) = "1"
digit_char (suc (suc zero)) = "2"
digit_char (suc (suc (suc zero))) = "3"
digit_char (suc (suc (suc (suc zero)))) = "4"
digit_char (suc (suc (suc (suc (suc zero))))) = "5"
digit_char (suc (suc (suc (suc (suc (suc zero)))))) = "6"
digit_char (suc (suc (suc (suc (suc (suc (suc zero))))))) = "7"
digit_char (suc (suc (suc (suc (suc (suc (suc (suc zero)))))))) = "8"
digit_char (suc (suc (suc (suc (suc (suc (suc (suc (suc n))))))))) = "9"

-- The digits of `n` in front of `rest`; the fuel is above `n`.
pub decimal_from : ℕ → ℕ → String → String
decimal_from zero n rest = rest
decimal_from (suc fuel) n rest =
    let here = String.◌∷◌ (digit_char (n % 10)) rest in
    let more = decimal_from fuel (n / 10) here in if eqb (n / 10) 0 then here else more

-- `fmt.Sprintf("%d", n)` for a number that is not negative.
unfoldable pub decimal : ℕ → String
unfolding decimal_from
decimal n = decimal_from (suc n) n ""

abbrev pub zeros : ℕ → String
zeros zero = ""
zeros (suc n) = String.◌∷◌ "0" (zeros n)

abbrev pub spaces : ℕ → String
spaces zero = ""
spaces (suc n) = String.◌∷◌ " " (spaces n)

unfoldable pub zero_padded : ℕ → ℕ → String
zero_padded width n = zeros (width - count (decimal n)) <> decimal n

-- `fmt.Sprintf(fmt.Sprintf("%%0%dd", width), n)`: a negative width is the flag `-`, which pads
-- with spaces on the right; a sign counts as one place of the width.
unfoldable pub format_padded : ℤ → ℤ → String
unfolding zero_padded
format_padded (pos width) (pos n) = zero_padded width n
format_padded (pos width) (negsuc n) = String.◌∷◌ "-" (zero_padded (width - 1) (suc n))
format_padded (negsuc width) (pos n) = decimal n <> spaces (suc width - count (decimal n))
format_padded (negsuc width) (negsuc n) =
    String.◌∷◌ "-" (decimal (suc n) <> spaces (width - count (decimal (suc n))))
