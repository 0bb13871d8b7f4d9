-- ===== src/Words/Panics.antt =====
-- services/po_pricing.go: when `AmountToWords` returns words.
use project_tracker.Prelude.{
  ℕ, zero, suc, ◌/◌, ◌%◌, ◌≤◌, ◌<◌, String, ◌≡◌, ◌↔◌, refl, Bool, true, false, if◌then◌else◌,
  Option, none, some, List, [], ◌∷◌, inl, inr, Bool-cases, arith, leb, ltb, eqb, length,
}
use project_tracker.Prelude.Int.{ℤ, pos, negsuc, ◌<ℤ◌, eqb_ℤ}
use project_tracker.Prelude.Text.{◌<>◌}
use project_tracker.Store.Schema.{Float64}
use project_tracker.Store.App.{App}
use project_tracker.Words.{
  get_elem?, ones, tens, convert_under_100, then_words, then_parts, append_words, remaining,
  hundreds, thousands, lakhs, convert_to_indian_words, rupees_to_words, amount_to_words_within,
  amount_to_words,
}

-- There is a text.
abbrev pub IsSome : {A : Type 0} → Option A → Type 0
IsSome {A} o = (a : A) × (o ≡ some a)

get_elem?-known : (xs : List String) (i : ℕ) → i < length xs → IsSome (get_elem? xs i)
unfolding get_elem?
get_elem?-known [] i h = absurd (omega arith)
get_elem?-known (x ∷ xs) zero h = (x, refl)
get_elem?-known (x ∷ xs) (suc i) h = get_elem?-known xs i (omega arith)

get_elem?-none : (xs : List String) (i : ℕ) → length xs ≤ i → get_elem? xs i ≡ none
unfolding get_elem?
get_elem?-none [] i h = refl
get_elem?-none (x ∷ xs) zero h = absurd (omega arith)
get_elem?-none (x ∷ xs) (suc i) h = get_elem?-none xs i (omega arith)

then_words-IsSome :
    (o : Option String) (f : String → Option String)
    → IsSome o
    → ((w : String) → IsSome (f w))
    → IsSome (then_words o f)
then_words-IsSome none f (a, e) g = absurd (cc)
then_words-IsSome (some w) f known g = g w

if-IsSome :
    {A : Type 0} (c : Bool) (o p : Option A)
    → (c ≡ true → IsSome o)
    → (c ≡ false → IsSome p)
    → IsSome (if c then o else p)
if-IsSome true o p f g = f refl
if-IsSome false o p f g = g refl

under_100-known : (n : ℕ) → n < 100 → IsSome (convert_under_100 n)
unfolding convert_under_100
under_100-known n h =
    if-IsSome (ltb n 20) _ _ (λ small. get_elem?-known ones n (ground arith))
      (λ large.
        then_words-IsSome (get_elem? tens (n / 10)) _ (get_elem?-known tens (n / 10) (omega arith))
          (λ t.
            if-IsSome (eqb (n % 10) 0) _ _ (λ e. (t, refl))
              (λ e.
                then_words-IsSome (get_elem? ones (n % 10)) _
                  (get_elem?-known ones (n % 10) (omega arith)) (λ o. (_, refl)))))

under_100-none : (n : ℕ) → 100 ≤ n → convert_under_100 n ≡ none
unfolding convert_under_100
under_100-none n h =
    let large : ltb n 20 ≡ false = ground arith in
    rw (large, get_elem?-none tens (n / 10) (omega arith))

remaining-known : (n : ℕ) (parts : List String) → n < 100 → IsSome (remaining n parts)
unfolding remaining
remaining-known n parts h =
    if-IsSome (ltb 0 n) _ _
      (λ e. then_words-IsSome (convert_under_100 n) _ (under_100-known n h) (λ w. (_, refl)))
      (λ e. (_, refl))

then_parts-IsSome :
    (o : Option String) (unit : String) (parts : List String) (f : List String → Option String)
    → IsSome o
    → ((ps : List String) → IsSome (f ps))
    → IsSome (then_parts (append_words o unit parts) f)
then_parts-IsSome none unit parts f (a, e) g = absurd (cc)
then_parts-IsSome (some w) unit parts f known g = g _

hundreds-known : (n : ℕ) (parts : List String) → n < 1000 → IsSome (hundreds n parts)
unfolding hundreds
hundreds-known n parts h =
    if-IsSome (leb 100 n) _ _
      (λ e.
        then_parts-IsSome (get_elem? ones (n / 100)) _ parts _
          (get_elem?-known ones (n / 100) (omega arith))
          (λ ps. remaining-known (n % 100) ps (omega arith)))
      (λ e. remaining-known n parts (ground arith))

thousands-known : (n : ℕ) (parts : List String) → n < 100000 → IsSome (thousands n parts)
unfolding thousands
thousands-known n parts h =
    if-IsSome (leb 1000 n) _ _
      (λ e.
        then_parts-IsSome (convert_under_100 (n / 1000)) _ parts _
          (under_100-known (n / 1000) (omega arith))
          (λ ps. hundreds-known (n % 1000) ps (omega arith)))
      (λ e. hundreds-known n parts (ground arith))

lakhs-known : (n : ℕ) (parts : List String) → n < 10000000 → IsSome (lakhs n parts)
unfolding lakhs
lakhs-known n parts h =
    if-IsSome (leb 100000 n) _ _
      (λ e.
        then_parts-IsSome (convert_under_100 (n / 100000)) _ parts _
          (under_100-known (n / 100000) (omega arith))
          (λ ps. thousands-known (n % 100000) ps (omega arith)))
      (λ e. thousands-known n parts (ground arith))

words-known : (n : ℤ) → n <ℤ pos 1000000000 → IsSome (convert_to_indian_words n)
unfolding convert_to_indian_words
words-known (pos n) h =
    if-IsSome (eqb n 0) _ _ (λ e. ("", refl))
      (λ e.
        if-IsSome (leb 10000000 n) _ _
          (λ big.
            then_parts-IsSome (convert_under_100 (n / 10000000)) _ [] _
              (under_100-known (n / 10000000) (omega arith))
              (λ ps. lakhs-known (n % 10000000) ps (omega arith)))
          (λ small. lakhs-known n [] (ground arith)))
words-known (negsuc n) h = (_, refl)

words-none : (n : ℕ) → 1000000000 ≤ n → convert_to_indian_words (pos n) ≡ none
unfolding convert_to_indian_words
words-none n h =
    let positive : eqb n 0 ≡ false = ground arith in
    let large : leb 10000000 n ≡ true = ground arith in
    rw (positive, large, under_100-none (n / 10000000) (omega arith))

too_large : (n : ℕ) → 1000000000 ≤ n → rupees_to_words (pos n) ≡ none
unfolding rupees_to_words
too_large n h =
    let positive : eqb_ℤ (pos n) (pos 0) ≡ false = ground arith in rw (positive, words-none n h)

below_limit : (n : ℤ) → IsSome (rupees_to_words n) → n <ℤ pos 1000000000
below_limit (negsuc n) some_words = omega arith
below_limit (pos n) (w, e) = elim (Bool-cases (ltb n 1000000000)) [
  | inl below ↦ ground arith
  | inr above ↦ absurd (cc (too_large n (ground arith), e))
]

rupees-known : (n : ℤ) → n <ℤ pos 1000000000 → IsSome (rupees_to_words n)
unfolding rupees_to_words
rupees-known n h =
    if-IsSome (eqb_ℤ n (pos 0)) _ _ (λ e. (_, refl))
      (λ e. then_words-IsSome (convert_to_indian_words n) _ (words-known n h) (λ w. (_, refl)))

then_words-known :
    (o : Option String) (f : String → String) → IsSome (then_words o (λ w. some (f w))) ↔ IsSome o
then_words-known none f = ((λ h. absurd (cc (h.1))), λ h. absurd (cc (h.1)))
then_words-known (some w) f = ((λ h. (w, refl)), λ h. (f w, refl))

negative-known :
    (n : ℤ)
    → IsSome (then_words (rupees_to_words n) (λ w. some ("Negative " <> w))) ↔ (n <ℤ pos 1000000000)
negative-known n =
    let (there, back) = then_words-known (rupees_to_words n) (λ w. "Negative " <> w) in
    (λ h. below_limit n (there h), λ h. back (rupees-known n h))

module _ (app : App) where
  open app use {float_lt, float_zero, float_neg, float_round, int_of_float}

  -- The amount without its sign, rounded and converted to `int64`.
  abbrev pub rupees_of : Float64 → ℤ
  rupees_of amount =
      int_of_float (float_round (if float_lt amount float_zero then float_neg amount else amount))

  -- If the negative of a negative number is not negative, AmountToWords returns words exactly if the
  -- amount without its sign, rounded and converted to int64, is below 1,000,000,000; otherwise it
  -- panics.
  pub amount_to_words-IsSome :
      ((x : Float64) → float_lt x float_zero ≡ true → float_lt (float_neg x) float_zero ≡ false)
      → (amount : Float64)
      → IsSome (amount_to_words app amount) ↔ (rupees_of amount <ℤ pos 1000000000)
  unfolding amount_to_words amount_to_words_within
  amount_to_words-IsSome flips amount = elim (Bool-cases (float_lt amount float_zero)) [
    | inr plain ↦
        let rupees = int_of_float (float_round amount) in
        let shape : rupees_of amount ≡ rupees = rw (plain, rupees_of) refl in
        rw (shape, plain) (below_limit rupees, rupees-known rupees)
    | inl negative ↦
        let plain = flips amount negative in
        let shape : rupees_of amount ≡ int_of_float (float_round (float_neg amount)) =
          rw (negative, rupees_of) refl in
        rw (shape, negative, plain) (negative-known (int_of_float (float_round (float_neg amount))))
  ]
