-- ===== src/Format/Grouping.antt =====
-- `applyIndianGrouping`: where the commas are.
use project_tracker.Prelude.{
  ℕ, zero, suc, ◌-◌, ◌%◌, ◌≤◌, ◌<◌, String, ◌≡◌, refl, sym, ap, ◌∙◌, ◌&&◌, true, false,
  if◌then◌else◌, inl, inr, Bool-cases, arith, ltb, leb, eqb,
}
use project_tracker.Prelude.Text.{◌<>◌, count, count-<>}
use project_tracker.Prelude.Text.Slice.{take, drop, take-drop, count-take, count-drop}
use project_tracker.Format.{group_remaining, apply_indian_grouping}

-- A digit is followed by a comma if three, five, seven, ... digits follow it.
abbrev pub with_commas : String → String
with_commas String.[] = ""
with_commas (String.◌∷◌ c s) =
    String.◌∷◌ c ((if leb 3 (count s) && eqb (count s % 2) 1 then "," else "") <> with_commas s)

-- The digits before the last three, each followed by a comma if an even number of them follows.
abbrev pairs : (remaining result : String) → String
pairs String.[] result = result
pairs (String.◌∷◌ c s) result =
    String.◌∷◌ c ((if eqb (count s % 2) 0 then "," else "") <> pairs s result)

pairs-<> : (s t result : String) → count t ≡ 2 → pairs (s <> t) result ≡ pairs s (pairs t result)
pairs-<> String.[] t result h = refl
pairs-<> (String.◌∷◌ c s) t result h =
    let same : (count (s <> t) % 2) ≡ count s % 2 = omega (arith, count-<> s t, h) in
    rw (same, pairs-<> s t result h) refl

pairs_two : (t result : String) → count t ≡ 2 → pairs t result ≡ t <> "," <> result
pairs_two String.[] result h = absurd (omega arith)
pairs_two (String.◌∷◌ c String.[]) result h = absurd (omega arith)
pairs_two (String.◌∷◌ c (String.◌∷◌ d String.[])) result h = refl
pairs_two (String.◌∷◌ c (String.◌∷◌ d (String.◌∷◌ e s))) result h = absurd (omega arith)

pairs_short :
    (s result : String)
    → count s ≤ 2
    → (if ltb 0 (count s) then s <> "," <> result else result) ≡ pairs s result
pairs_short String.[] result h = refl
pairs_short (String.◌∷◌ c String.[]) result h = refl
pairs_short (String.◌∷◌ c (String.◌∷◌ d String.[])) result h = refl
pairs_short (String.◌∷◌ c (String.◌∷◌ d (String.◌∷◌ e s))) result h = absurd (omega arith)

split_last :
    (s result : String)
    → 2 < count s
    → pairs (take (count s - 2) s) (drop (count s - 2) s <> "," <> result) ≡ pairs s result
split_last s result h =
    let two : count (drop (count s - 2) s) ≡ 2 = omega (arith, count-drop (count s - 2) s) in
    ap (pairs (take (count s - 2) s)) (sym (pairs_two (drop (count s - 2) s) result two))
    ∙ sym (pairs-<> (take (count s - 2) s) (drop (count s - 2) s) result two)
    ∙ ap (λ t. pairs t result) (take-drop (count s - 2) s)

group_remaining-pairs :
    (fuel : ℕ) (s result : String) → count s ≤ fuel → group_remaining fuel s result ≡ pairs s result
unfolding group_remaining
group_remaining-pairs zero s result h = pairs_short s result (omega arith)
group_remaining-pairs (suc fuel) s result h = elim (Bool-cases (ltb 2 (count s))) [
  | inl long ↦ rw long (
      group_remaining-pairs fuel (take (count s - 2) s) _
        (ground (arith, count-take (count s - 2) s (omega arith)))
      ∙ split_last s result (ground arith))
  | inr short ↦ rw short (pairs_short s result (ground arith))
]

with_commas_short : (s : String) → count s ≤ 3 → with_commas s ≡ s
with_commas_short String.[] h = refl
with_commas_short (String.◌∷◌ c s) h =
    let few : leb 3 (count s) ≡ false = ground arith in
    rw (few, with_commas_short s (omega arith)) refl

pairs-with_commas : (s t : String) → count t ≡ 3 → pairs s t ≡ with_commas (s <> t)
pairs-with_commas String.[] t h = sym (with_commas_short t (omega (arith, h)))
pairs-with_commas (String.◌∷◌ c s) t h =
    let many : leb 3 (count (s <> t)) ≡ true = ground (arith, count-<> s t, h) in
    let parity : eqb (count (s <> t) % 2) 1 ≡ eqb (count s % 2) 0 =
      ground (arith, count-<> s t, h) in
    rw (many, parity, pairs-with_commas s t h) refl

-- Indian grouping puts a comma after exactly those characters that three, five, seven and so on
-- characters follow, and changes nothing else.
pub apply_indian_grouping-with_commas : (s : String) → apply_indian_grouping s ≡ with_commas s
unfolding apply_indian_grouping
apply_indian_grouping-with_commas s = elim (Bool-cases (leb (count s) 3)) [
  | inl short ↦ rw short (sym (with_commas_short s (ground arith)))
  | inr long ↦ rw long (
      group_remaining-pairs (count s) (take (count s - 3) s) (drop (count s - 3) s)
        (ground (arith, count-take (count s - 3) s (omega arith)))
      ∙ pairs-with_commas (take (count s - 3) s) (drop (count s - 3) s)
          (ground (arith, count-drop (count s - 3) s))
      ∙ ap with_commas (take-drop (count s - 3) s))
]
