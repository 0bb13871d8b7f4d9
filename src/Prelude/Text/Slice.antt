-- ===== src/Prelude/Text/Slice.antt =====
-- Parts of a text: Go's `s[:n]` and `s[n:]`, for texts of one-byte characters.
use Prim.Native.Nat.{ℕ, zero, suc, ◌-◌, ◌≤◌}
use Prim.Native.String.{String}
use mathlib.Core.Path.{◌≡◌, refl, ap}
use native.Mathlib.Omega.{arith}
use project_tracker.Prelude.Text.{◌<>◌, count}

-- `s[:n]`
abbrev pub take : ℕ → String → String
take zero s = ""
take (suc n) String.[] = ""
take (suc n) (String.◌∷◌ c s) = String.◌∷◌ c (take n s)

-- `s[n:]`
abbrev pub drop : ℕ → String → String
drop zero s = s
drop (suc n) String.[] = ""
drop (suc n) (String.◌∷◌ c s) = drop n s

pub take-drop : (n : ℕ) (s : String) → take n s <> drop n s ≡ s
take-drop zero s = refl
take-drop (suc n) String.[] = refl
take-drop (suc n) (String.◌∷◌ c s) = ap (String.◌∷◌ c) (take-drop n s)

pub count-take : (n : ℕ) (s : String) → n ≤ count s → count (take n s) ≡ n
count-take zero s h = refl
count-take (suc n) String.[] h = absurd (omega arith)
count-take (suc n) (String.◌∷◌ c s) h = ap suc (count-take n s (omega arith))

pub count-drop : (n : ℕ) (s : String) → count (drop n s) ≡ count s - n
count-drop zero s = omega arith
count-drop (suc n) String.[] = omega arith
count-drop (suc n) (String.◌∷◌ c s) = omega (arith, count-drop n s)

pub assoc-<> : (s t u : String) → (s <> t) <> u ≡ s <> (t <> u)
assoc-<> String.[] t u = refl
assoc-<> (String.◌∷◌ c s) t u = ap (String.◌∷◌ c) (assoc-<> s t u)
