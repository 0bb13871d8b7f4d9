-- ===== src/Prelude/Text/Replace.antt =====
-- `strings.ReplaceAll` on texts that are put together from parts.
use Prim.Native.Nat.{ℕ, zero, suc, ◌-◌, ◌/◌, ◌%◌}
use Prim.Native.Char.{code}
use Prim.Native.String.{String}
use mathlib.Core.Bool.{Bool, true, false}
use project_tracker.Prelude.Tests.{eqb, if◌then◌else◌}
use mathlib.Core.Path.{◌≡◌, refl}
use mathlib.Core.Logic.{◌≢◌}
use native.Mathlib.Omega.{arith}
use project_tracker.Prelude.Text.{
  count, decimal_from, decimal, zeros, zero_padded, digit_char, ◌<>◌, replace_from,
}

-- The text has no opening brace, the first character of every token of a number format.
abbrev pub NoBrace : String → Type 0
NoBrace String.[] = Unit
NoBrace (String.◌∷◌ c s) = (code c ≢ 123) × NoBrace s

pub NoBrace-<> : (s t : String) → NoBrace s → NoBrace t → NoBrace (s <> t)
NoBrace-<> String.[] t h k = k
NoBrace-<> (String.◌∷◌ c s) t h k = (h.0, NoBrace-<> s t h.1 k)

-- A token of a number format: it starts with an opening brace.
abbrev pub IsToken : String → Type 0
IsToken String.[] = ⊥
IsToken (String.◌∷◌ c s) = code c ≡ 123

-- A part with no brace is copied.
pub replace_skips :
    (old new s t : String)
    → IsToken old
    → NoBrace s
    → replace_from old new 0 (s <> t) ≡ s <> replace_from old new 0 t
unfolding replace_from
replace_skips old new String.[] t k h = refl
replace_skips String.[] new (String.◌∷◌ c s) t k h = absurd k
replace_skips (String.◌∷◌ d old) new (String.◌∷◌ c s) t k h =
    ground (arith, replace_skips (String.◌∷◌ d old) new s t k h.1)

pub replace_none : (old new s : String) → IsToken old → NoBrace s → replace_from old new 0 s ≡ s
unfolding replace_from
replace_none old new String.[] k h = refl
replace_none String.[] new (String.◌∷◌ c s) k h = absurd k
replace_none (String.◌∷◌ d old) new (String.◌∷◌ c s) k h =
    ground (arith, replace_none (String.◌∷◌ d old) new s k h.1)

digit-plain : (d : ℕ) → code (digit_char d) ≢ 123
digit-plain zero = λ e. omega arith
digit-plain (suc zero) = λ e. omega arith
digit-plain (suc (suc zero)) = λ e. omega arith
digit-plain (suc (suc (suc zero))) = λ e. omega arith
digit-plain (suc (suc (suc (suc zero)))) = λ e. omega arith
digit-plain (suc (suc (suc (suc (suc zero))))) = λ e. omega arith
digit-plain (suc (suc (suc (suc (suc (suc zero)))))) = λ e. omega arith
digit-plain (suc (suc (suc (suc (suc (suc (suc zero))))))) = λ e. omega arith
digit-plain (suc (suc (suc (suc (suc (suc (suc (suc zero)))))))) = λ e. omega arith
digit-plain (suc (suc (suc (suc (suc (suc (suc (suc (suc n))))))))) = λ e. omega arith

if-NoBrace : (c : Bool) (s t : String) → NoBrace s → NoBrace t → NoBrace (if c then s else t)
if-NoBrace true s t h k = h
if-NoBrace false s t h k = k

decimal_from-NoBrace :
    (fuel n : ℕ) (rest : String) → NoBrace rest → NoBrace (decimal_from fuel n rest)
unfolding decimal_from
decimal_from-NoBrace zero n rest h = h
decimal_from-NoBrace (suc fuel) n rest h =
    let here : NoBrace (String.◌∷◌ (digit_char (n % 10)) rest) = (digit-plain (n % 10), h) in
    if-NoBrace (eqb (n / 10) 0) _ _ here (decimal_from-NoBrace fuel (n / 10) _ here)

zeros-NoBrace : (n : ℕ) → NoBrace (zeros n)
zeros-NoBrace zero = tt
zeros-NoBrace (suc n) = ((λ e. omega arith), zeros-NoBrace n)

-- A printed number has no brace.
pub zero_padded-NoBrace : (width n : ℕ) → NoBrace (zero_padded width n)
unfolding zero_padded decimal
zero_padded-NoBrace width n =
    NoBrace-<> (zeros (width - count (decimal n))) (decimal n)
      (zeros-NoBrace (width - count (decimal n))) (decimal_from-NoBrace (suc n) n "" tt)
