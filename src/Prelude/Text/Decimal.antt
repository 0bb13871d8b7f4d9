-- ===== src/Prelude/Text/Decimal.antt =====
-- A number can be read back from its digits, so different numbers are printed differently.
use Prim.Native.Char.{code}
use project_tracker.Prelude.Tests.{eqb, eqb_iff, Bool-cases}
use Prim.Native.Nat.{ℕ, zero, suc, ◌+◌, ◌-◌, ◌*◌, ◌/◌, ◌%◌, ◌<◌}
use Prim.Native.String.{String}
use mathlib.Core.Path.{◌≡◌, refl, ap, sym, ◌∙◌}
use mathlib.Core.Logic.{inl, inr}
use native.Mathlib.Omega.{arith}
use project_tracker.Prelude.Text.{
  ◌<>◌, count, digit_char, decimal_from, decimal, zeros, zero_padded,
}

abbrev value_from : ℕ → String → ℕ
value_from n String.[] = n
value_from n (String.◌∷◌ c s) = value_from (n * 10 + (code c - 48)) s

code-digit_char : (n : ℕ) → n < 10 → code (digit_char n) - 48 ≡ n
code-digit_char zero h = refl
code-digit_char (suc zero) h = refl
code-digit_char (suc (suc zero)) h = refl
code-digit_char (suc (suc (suc zero))) h = refl
code-digit_char (suc (suc (suc (suc zero)))) h = refl
code-digit_char (suc (suc (suc (suc (suc zero))))) h = refl
code-digit_char (suc (suc (suc (suc (suc (suc zero)))))) h = refl
code-digit_char (suc (suc (suc (suc (suc (suc (suc zero))))))) h = refl
code-digit_char (suc (suc (suc (suc (suc (suc (suc (suc zero)))))))) h = refl
code-digit_char (suc (suc (suc (suc (suc (suc (suc (suc (suc n))))))))) h = omega arith

value_digit :
    (a n : ℕ) (s : String)
    → value_from a (String.◌∷◌ (digit_char (n % 10)) s) ≡ value_from (a * 10 + n % 10) s
value_digit a n s = rw (code-digit_char (n % 10) (omega arith))

value-decimal_from :
    (fuel n : ℕ) (s : String) → n < fuel → value_from 0 (decimal_from fuel n s) ≡ value_from n s
unfolding decimal_from
value-decimal_from zero n s h = absurd (omega arith)
value-decimal_from (suc fuel) n s h = elim (Bool-cases (eqb (n / 10) 0)) [
  | inl last ↦
      let small : n % 10 ≡ n = omega (arith, (eqb_iff (n / 10) 0).0 last) in
      rw last (value_digit 0 n s ∙ ap (λ k. value_from k s) (omega arith))
  | inr more ↦ rw more (
      value-decimal_from fuel (n / 10) _ (ground arith)
      ∙ value_digit (n / 10) n s
      ∙ ap (λ k. value_from k s) (omega arith))
]

value-decimal : (n : ℕ) → value_from 0 (decimal n) ≡ n
unfolding decimal
value-decimal n = value-decimal_from (suc n) n "" (omega arith)

value-zeros : (k : ℕ) (s : String) → value_from 0 (zeros k <> s) ≡ value_from 0 s
value-zeros zero s = refl
value-zeros (suc k) s = value-zeros k s

pub value-zero_padded : (width n : ℕ) → value_from 0 (zero_padded width n) ≡ n
unfolding zero_padded
value-zero_padded width n = value-zeros (width - count (decimal n)) (decimal n) ∙ value-decimal n

-- Numbers that are printed with the same padding are told apart by their digits.
pub zero_padded-injective : (width m n : ℕ) → zero_padded width m ≡ zero_padded width n → m ≡ n
zero_padded-injective width m n e =
    sym (value-zero_padded width m) ∙ ap (value_from 0) e ∙ value-zero_padded width n
