-- ===== src/Bench/Orchestrator/Columns.antt =====
-- The histograms of src/bin/bench_orchestrator.rs hold the columns of the reports that are complete.
use tryst_core_portfolio.Prelude.{
  Text, ℕ, List, [], ◌∷◌, Option, none, some, ◌≡◌, refl, Result, ok, err, Option-cases, inl, inr,
  sym, map,
}
use tryst_core_portfolio.Bench.Report.{WorkerError}
use tryst_core_portfolio.Bench.Orchestrator.{Histogram, ConnHists, or_fail, iteration, iterations}

-- The reports of three numbers.
abbrev pub complete : List (Result (List ℕ) WorkerError) → List (ℕ × ℕ × ℕ)
complete [] = []
complete (ok (a ∷ b ∷ c ∷ []) ∷ rs) = (a, b, c) ∷ complete rs
complete (_ ∷ rs) = complete rs

fails_later : {A B : Type 0} (x : Option A) → or_fail {B = B} x (λ a. none) ≡ none
fails_later none = refl
fails_later (some a) = refl

fails_last :
    {A B C : Type 0} (x : Option A) (y : Option B)
    → or_fail {B = C} x (λ a. or_fail y (λ b. none)) ≡ none
fails_last none y = refl
fails_last (some a) y = fails_later y

module _ {H : Type 0} (hist : Histogram H) (to_string : ℕ → Text) where
  -- One column after the other.
  abbrev pub record_all : List ℕ → H → Option H
  record_all [] h = some h
  record_all (n ∷ ns) h = or_fail (hist.record_value n h) (record_all ns)

  abbrev pub columns :
      List (ℕ × ℕ × ℕ) → ConnHists hist to_string → Option (ConnHists hist to_string)
  columns rows h = or_fail (record_all (map (λ r. r.0) rows) h.latency_hist) λ a.
      or_fail (record_all (map (λ r. r.1) rows) h.bytes_hist) λ b.
        or_fail (record_all (map (λ r. r.2) rows) h.cpu_hist)
          λ c. some (record { latency_hist = a; bytes_hist = b; cpu_hist = c })

  -- The measurement records, row by row, what each column has in the complete reports, and fails if
  -- and only if one of the histograms cannot take its column.
  pub iterations_lem :
      (rs : List (Result (List ℕ) WorkerError)) (h : ConnHists hist to_string)
      → iterations hist to_string rs h ≡ columns (complete rs) h
  unfolding iterations iteration
  iterations_lem [] h = refl
  iterations_lem (ok (a ∷ b ∷ c ∷ []) ∷ rs) h =
      elim (Option-cases (hist.record_value a h.latency_hist)) [
        | inl e ↦ rw e refl
        | inr (x, e) ↦ elim (Option-cases (hist.record_value b h.bytes_hist)) [
          | inl f ↦ rw (e, f) (sym (fails_later (record_all (map (λ r. r.0) (complete rs)) x)))
          | inr (y, f) ↦ elim (Option-cases (hist.record_value c h.cpu_hist)) [
            | inl g ↦
                rw (e, f, g)
                  (sym (
                    fails_last (record_all (map (λ r. r.0) (complete rs)) x)
                      (record_all (map (λ r. r.1) (complete rs)) y)))
            | inr (z, g) ↦
                rw (e, f, g)
                  (iterations_lem rs (record { latency_hist = x; bytes_hist = y; cpu_hist = z }))
          ]
        ]
      ]
  iterations_lem (ok [] ∷ rs) h = iterations_lem rs h
  iterations_lem (ok (a ∷ []) ∷ rs) h = iterations_lem rs h
  iterations_lem (ok (a ∷ b ∷ []) ∷ rs) h = iterations_lem rs h
  iterations_lem (ok (a ∷ b ∷ c ∷ d ∷ ns) ∷ rs) h = iterations_lem rs h
  iterations_lem (err e ∷ rs) h = iterations_lem rs h
