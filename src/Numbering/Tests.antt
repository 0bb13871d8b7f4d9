-- ===== src/Numbering/Tests.antt =====
-- Numbers, on a store in memory that has no counters yet.
use project_tracker.Prelude.{
  String, ◌≡◌, refl, ap, ◌==◌, Bool-cases, inl, inr, some, arith, ◌%◌, ◌+◌, ℕ,
}
use project_tracker.Prelude.Int.{ℤ, pos, ◌+ℤ◌, ◌-ℤ◌}
use project_tracker.Prelude.Exec.{Result, ok}
use project_tracker.Prelude.Text.{◌<>◌, zero_padded, decimal, format_padded, replace_all}
use project_tracker.Prelude.Text.Replace.{NoBrace}
use project_tracker.Store.Schema.{Project, NumberSequence, projects, number_sequences}
use project_tracker.Store.Memory.{MemDb, find_in}
use project_tracker.Store.Memory.Lawful.{memory-Laws}
use project_tracker.Store.Samples.{june, every, app, stock}
use project_tracker.Services.{Error}
use project_tracker.Numbering.Format.{get_financial_year, type_code, format_doc_number}
use project_tracker.Numbering.Sequence.{
  next_doc_number, numbered, advance, seq_start, dc_seq_start, or_default_ℤ,
}
use project_tracker.Numbering.Successive.{
  AtMostOne, next_doc_number-AtMostOne, next_doc_number-successive,
}
use project_tracker.Numbering.Unique.{Numbered, next_doc_number-Numbered}
use project_tracker.Numbering.Distinct.{format_default-injective}
use project_tracker.Numbering.FinancialYear.{fiscal_start, get_financial_year-eq}

abbrev after_one : MemDb
after_one = (next_doc_number app "p1" "tdc" june stock).1

abbrev after_two : MemDb
after_two = (next_doc_number app "p1" "tdc" june after_one).1

first_number : (next_doc_number app "p1" "tdc" june stock).0 ≡ ok "PT-TDC-2526-007"
unfolding next_doc_number advance seq_start dc_seq_start or_default_ℤ numbered get_financial_year
    format_padded format_doc_number replace_all type_code ◌+ℤ◌ ◌-ℤ◌ decimal zero_padded
first_number = refl

second_number : (next_doc_number app "p1" "tdc" june after_one).0 ≡ ok "PT-TDC-2526-008"
unfolding next_doc_number advance seq_start dc_seq_start or_default_ℤ numbered get_financial_year
    format_padded format_doc_number replace_all type_code ◌+ℤ◌ ◌-ℤ◌ decimal zero_padded
second_number = refl

first_run : next_doc_number app "p1" "tdc" june stock ≡ (ok "PT-TDC-2526-007", after_one)
first_run = ap (λ (r : Result Error String). (r, after_one)) first_number

second_run : next_doc_number app "p1" "tdc" june after_one ≡ (ok "PT-TDC-2526-008", after_two)
second_run = ap (λ (r : Result Error String). (r, after_two)) second_number

no_counter : (i : String) (r : NumberSequence) → find_in number_sequences i stock ≡ some r → ⊥
no_counter i r h = elim (Bool-cases (i == "")) [
  | inl blank ↦ absurd (cc (rw blank at h))
  | inr named ↦ absurd (cc (rw named at h))
]

unique_stock : AtMostOne app (memory-Laws every june) stock
unique_stock = record { same_id = λ p t y i j r s a b c d. absurd (no_counter i r a) }

next_doc_number-Numbered_example :
    Numbered app
      (memory-Laws every june)
      "p1"
      "tdc"
      june
      stock
      (next_doc_number app "p1" "tdc" june stock)
next_doc_number-Numbered_example =
    next_doc_number-Numbered app (memory-Laws every june) "p1" "tdc" june stock

next_doc_number-AtMostOne_example : AtMostOne app (memory-Laws every june) after_one
next_doc_number-AtMostOne_example =
    next_doc_number-AtMostOne app (memory-Laws every june) "p1" "tdc" june stock unique_stock

next_doc_number-successive_example :
    (q : Project) × (n : ℤ) × (find_in projects "p1" stock ≡ some q)
    × ("PT-TDC-2526-007" ≡ numbered app.to_upper q "tdc" (get_financial_year june) n)
    × ("PT-TDC-2526-008" ≡ numbered app.to_upper q "tdc" (get_financial_year june) (n +ℤ pos 1))
next_doc_number-successive_example =
    next_doc_number-successive app (memory-Laws every june) "p1" "tdc" june stock after_one
      after_two "PT-TDC-2526-007" "PT-TDC-2526-008" unique_stock first_run second_run

get_financial_year-eq_example :
    get_financial_year june
    ≡ zero_padded 2 (fiscal_start june % 100) <> zero_padded 2 ((fiscal_start june + 1) % 100)
get_financial_year-eq_example =
    get_financial_year-eq june (omega arith) (omega arith) (omega arith) (omega arith)

type_plain : NoBrace (type_code (λ s. s) "tdc")
unfolding type_code
type_plain = ((λ e. omega arith), ((λ e. omega arith), ((λ e. omega arith), tt)))

format_default-injective_example : ◌≡◌ {A = ℕ} 7 7
format_default-injective_example =
    format_default-injective (λ s. s) "-" "PT" "tdc" "2526" "R1" ((λ e. omega arith), tt)
      ((λ e. omega arith), ((λ e. omega arith), tt)) type_plain
      ((λ e. omega arith), ((λ e. omega arith), ((λ e. omega arith), ((λ e. omega arith), tt)))) 3 7
      7 refl
