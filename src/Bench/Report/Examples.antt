-- ===== src/Bench/Report/Examples.antt =====
-- The theorem on reports, with numbers in unary digits.
use tryst_core_portfolio.Prelude.{
  Text, ℕ, zero, suc, ◌≤◌, [], ◌∷◌, ◌++◌, Option, some, ok, err, ◌≡◌, refl, ap, arith, All, length,
}
use tryst_core_portfolio.Bench.Report.{report_result, lines, run_worker, no_result}
use tryst_core_portfolio.Bench.Report.Reading.{NumberTexts, run_worker-report_result}

abbrev pub ones : ℕ → Text
ones zero = []
ones (suc n) = 49 ∷ ones n

abbrev pub count : Text → Option ℕ
count t = some (length t)

length-ones : (n : ℕ) → length (ones n) ≡ n
length-ones zero = refl
length-ones (suc n) = ap suc (length-ones n)

ones_digits : (n : ℕ) → All (λ c. (48 ≤ c) × (c ≤ 57)) (ones n)
ones_digits zero = tt
ones_digits (suc n) = ((omega arith, omega arith), ones_digits n)

pub unary : NumberTexts ones count
unary = record { reads = λ n h. ap some (length-ones n); digits = ones_digits }

-- "hi", an empty line, and then the report and "done".
run_worker-report_result_example :
    run_worker count (
      ok (
        (104 ∷ 105 ∷ 13 ∷ 10 ∷ 10 ∷ [])
        ++ (report_result ones (3 ∷ 0 ∷ 2 ∷ []) ++ (100 ∷ 111 ∷ 110 ∷ 101 ∷ []))))
    ≡ ok (3 ∷ 0 ∷ 2 ∷ [])
unfolding lines
run_worker-report_result_example =
    run_worker-report_result ones count unary (104 ∷ 105 ∷ 13 ∷ 10 ∷ 10 ∷ [])
      (100 ∷ 111 ∷ 110 ∷ 101 ∷ []) 3 (0 ∷ 2 ∷ []) refl (refl, (refl, tt))
      (omega arith, (omega arith, (omega arith, tt)))

-- A worker that prints "ERROR".
error_line : run_worker count (ok (69 ∷ 82 ∷ 82 ∷ 79 ∷ 82 ∷ 10 ∷ [])) ≡ err no_result
unfolding run_worker
error_line = refl
