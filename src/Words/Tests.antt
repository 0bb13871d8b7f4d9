-- ===== src/Words/Tests.antt =====
-- Amounts in words, with the float64 operations of the store in memory.
use project_tracker.Prelude.{◌≡◌, refl, ◌↔◌, true, false, some, arith}
use project_tracker.Prelude.Int.{pos, ◌<ℤ◌}
use project_tracker.Store.Schema.{Float64}
use project_tracker.Store.Samples.{app}
use project_tracker.Words.{
  amount_to_words, amount_to_words_within, rupees_to_words, convert_to_indian_words,
  convert_under_100, get_elem?, lakhs, thousands, hundreds, remaining, join_words,
}
use project_tracker.Words.Panics.{IsSome, rupees_of, amount_to_words-IsSome}

abbrev amount : Float64
amount = record { bits = 913183 }

never_negative :
    (x : Float64)
    → app.float_lt x app.float_zero ≡ true
    → app.float_lt (app.float_neg x) app.float_zero ≡ false
never_negative x h = ground arith

amount_to_words-IsSome_example :
    IsSome (amount_to_words app amount) ↔ (rupees_of app amount <ℤ pos 1000000000)
amount_to_words-IsSome_example = amount_to_words-IsSome app never_negative amount

-- The example of the function's comment.
words_run :
    amount_to_words app amount
    ≡ some "Nine Lakhs Thirteen Thousand One Hundred and Eighty Three Rupees Only/-"
unfolding amount_to_words amount_to_words_within rupees_to_words convert_to_indian_words lakhs
    thousands hundreds remaining convert_under_100 get_elem? join_words
words_run = refl
