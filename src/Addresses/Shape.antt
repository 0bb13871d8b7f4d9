-- ===== src/Addresses/Shape.antt =====
-- services/address_validation.go: how the patterns of GSTIN and PAN fit together.
use project_tracker.Prelude.{
  ℕ, String, ◌==◌, ◌&&◌, ◌≡◌, ◌≢◌, refl, Bool, true, false, List, [], ◌∷◌, ◌++◌, eqb, length,
  test_of_ne,
}
use project_tracker.Prelude.Text.{count}
use project_tracker.Prelude.Text.Space.{trim_space}
use project_tracker.Prelude.Text.Slice.{take, drop}
use project_tracker.Store.App.{App}
use project_tracker.Addresses.Pattern.{
  Class, in_class, matches, empty_or, pan_pattern, gstin_pattern, digits, upper_or_digit,
  validate_gstin,
}

both : (a b : Bool) → (a && b) ≡ true → (a ≡ true) × (b ≡ true)
both true b h = (refl, h)
both false b h = absurd (cc)

-- A text that fits one pattern after another has a part for each.
matches-++ :
    (ks ls : List Class) (s : String)
    → matches (ks ++ ls) s ≡ true
    → (matches ks (take (length ks) s) ≡ true) × (matches ls (drop (length ks) s) ≡ true)
unfolding matches
matches-++ [] ls s h = (refl, h)
matches-++ (k ∷ ks) ls String.[] h = absurd (cc)
matches-++ (k ∷ ks) ls (String.◌∷◌ c s) h =
    let (here, there) = both (in_class k c) (matches (ks ++ ls) s) h in
    let (front, back) = matches-++ ks ls s there in (rw here front, back)

module _ (app : App) where
  -- The pattern of a text that is not empty.
  filled :
      (n : ℕ) (p : List Class) (s : String) → s ≢ "" → empty_or n p s ≡ true → matches p s ≡ true
  unfolding empty_or
  filled n p s ne h =
      let blank : (s == "") ≡ false = test_of_ne s "" ne in
      (both (eqb (count s) n) (matches p s) (rw blank at h)).1

  -- A GSTIN that is accepted and not blank has a PAN in it: the ten characters after the first two
  -- fit the pattern of a PAN.
  pub validate_gstin-pan :
      (gstin : String)
      → trim_space (app.to_upper gstin) ≢ ""
      → validate_gstin app gstin ≡ true
      → matches pan_pattern (take 10 (drop 2 (trim_space (app.to_upper gstin)))) ≡ true
  unfolding validate_gstin
  validate_gstin-pan gstin ne h =
      let s = trim_space (app.to_upper gstin) in
      let whole : matches gstin_pattern s ≡ true = filled 15 gstin_pattern s ne h in
      let rest =
        (matches-++ (digits ∷ digits ∷ [])
          (pan_pattern ++ ((49, 57) ∷ (65, 90) ∷ []) ∷ ((90, 90) ∷ []) ∷ upper_or_digit ∷ []) s
          whole).1 in
      (matches-++ pan_pattern (((49, 57) ∷ (65, 90) ∷ []) ∷ ((90, 90) ∷ []) ∷ upper_or_digit ∷ [])
        (drop 2 s) rest).0
