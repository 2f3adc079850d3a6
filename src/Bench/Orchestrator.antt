-- ===== src/Bench/Orchestrator.antt =====
-- The measurements of src/bin/bench_orchestrator.rs: each iteration runs a worker, and what the workers
-- report goes into histograms, of which the result rows are made.
--
-- hdrhistogram is the parameter `Histogram`; `row_value` is the text of a quantile, scaled and with two
-- digits. What each worker gave is a list, in the order of the iterations.
pub mod Columns
pub mod Discovery
pub mod Main
use tryst_core_portfolio.Prelude.{
  Text, ℕ, List, [], ◌∷◌, ◌++◌, Option, none, some, if◌then◌else◌, ltb, map, Result, ok, err,
}
use tryst_core_portfolio.Bench.Report.{WorkerError}

pub data Scale : Type 0 where
  whole thousandth : Scale

pub record Histogram (H : Type 0) : Type 0 where
  pub new : H
  pub record_value : ℕ → H → Option H
  pub len : H → ℕ
  pub row_value : H → ℕ → Scale → Text

abbrev quantiles : List ℕ
quantiles = 50 ∷ 75 ∷ 90 ∷ 95 ∷ 99 ∷ []

abbrev pub or_fail : {A B : Type 0} → Option A → (A → Option B) → Option B
or_fail none f = none
or_fail (some a) f = f a

module _ {H : Type 0} (hist : Histogram H) (to_string : ℕ → Text) where
  open hist use {new, record_value, len, row_value}

  -- "{name},p{q_str}_{metric},{val:.2}".
  abbrev row : Text → Text → H → Scale → ℕ → Text
  row name metric h scale q =
      name ++ (44 ∷ 112 ∷ (to_string q ++ (95 ∷ (metric ++ (44 ∷ row_value h q scale)))))

  -- `report_hist`.
  unfoldable pub report_hist : Text → Text → H → Scale → List Text
  report_hist name metric h scale =
      if ltb 0 (len h) then map (row name metric h scale) quantiles else []

  pub record ConnHists : Type 0 where
    pub latency_hist : H
    pub bytes_hist : H
    pub cpu_hist : H

  abbrev pub new_hists : ConnHists
  new_hists = record { latency_hist = new; bytes_hist = new; cpu_hist = new }

  -- One iteration: three numbers are recorded, anything else is passed over. A histogram that cannot
  -- take a number ends the measurement.
  unfoldable pub iteration : Result (List ℕ) WorkerError → ConnHists → Option ConnHists
  iteration (ok (latency ∷ bytes ∷ cpu ∷ [])) h = or_fail (record_value latency h.latency_hist) λ a.
      or_fail (record_value bytes h.bytes_hist) λ b.
        or_fail (record_value cpu h.cpu_hist)
          λ c. some (record { latency_hist = a; bytes_hist = b; cpu_hist = c })
  iteration _ h = some h

  unfoldable pub iterations : List (Result (List ℕ) WorkerError) → ConnHists → Option ConnHists
  unfolding iteration
  iterations [] h = some h
  iterations (r ∷ rs) h = or_fail (iteration r h) (iterations rs)

  -- `measure_connection_establishment`, with the names that it gives its rows.
  unfoldable pub measure_connection_establishment :
      Text → Text → Text → Text → List (Result (List ℕ) WorkerError) → Option (List Text)
  unfolding iterations report_hist
  measure_connection_establishment name latency_ms bytes cpu_ms rs =
      or_fail (iterations rs new_hists) λ h. some (
        report_hist name latency_ms h.latency_hist whole
        ++ (report_hist name bytes h.bytes_hist whole
            ++ report_hist name cpu_ms h.cpu_hist thousandth))
