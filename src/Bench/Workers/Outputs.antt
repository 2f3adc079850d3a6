-- ===== src/Bench/Workers/Outputs.antt =====
-- What the orchestrator reads of the outputs of the workers, src/bin.
use tryst_core_portfolio.Prelude.{
  Text, ℕ, ◌-◌, ◌^◌, ◌<◌, List, [], ◌∷◌, ◌++◌, Option, none, some, Result, ok, err, ◌≡◌, refl, ap,
  sym, strip_prefix, ◌∙◌, All, arith, append-nil,
}
use tryst_core_portfolio.Bench.Report.{
  report_result, result_prefix, run_worker, WorkerError, no_result, lines, read_lines,
}
use tryst_core_portfolio.Bench.Report.Reading.{NumberTexts, run_worker-report_result}
use tryst_core_portfolio.Bench.Orchestrator.{
  Histogram, or_fail, report_hist, new_hists, measure_connection_establishment, whole, thousandth,
}
use tryst_core_portfolio.Bench.Orchestrator.Columns.{complete, columns, iterations_lem}
use tryst_core_portfolio.Bench.Workers.{
  ConnWorld, conn_worker, conn_report, bytes_since, waiting_line, error_line, args_len_is_4,
}

-- The numbers of a run of the connection worker, where every step worked and the connection came.
abbrev pub conn_numbers : ConnWorld → Option ℕ → Option (ℕ × ℕ × ℕ)
conn_numbers w none = none
conn_numbers w (some latency) =
    some (latency, bytes_since w.start_bandwidth w.max_conn_bytes, w.end_cpu - w.start_cpu)

abbrev pub and_then : {A : Type 0} → Result (Unit {0}) (Unit {0}) → Option A → Option A
and_then (ok _) o = o
and_then (err _) o = none

abbrev pub reported : List Text → ConnWorld → Option (ℕ × ℕ × ℕ)
reported args w = and_then (args_len_is_4 args) (
    and_then w.bench_db (
      and_then w.alice (
        and_then w.bob (
          and_then w.invite (
            and_then w.received
              (and_then w.manager (and_then w.subscribed (conn_numbers w w.conn_latency))))))))

abbrev pub read_as : Option (ℕ × ℕ × ℕ) → Result (List ℕ) WorkerError
read_as none = err no_result
read_as (some (a, b, c)) = ok (a ∷ b ∷ c ∷ [])

-- The readings of the meters are u64.
pub record Metered (w : ConnWorld) : Type 0 where
  pub latency : (n : ℕ) → w.conn_latency ≡ some n → n < 2 ^ 64
  pub bytes : w.max_conn_bytes < 2 ^ 64
  pub cpu : w.end_cpu < 2 ^ 64

waits_plain : All (λ l. strip_prefix result_prefix l ≡ none) (lines waiting_line)
unfolding lines
waits_plain = (refl, tt)

silent : (parse : Text → Option ℕ) → run_worker parse (ok []) ≡ err no_result
unfolding run_worker lines read_lines
silent parse = refl

waiting : (parse : Text → Option ℕ) → run_worker parse (ok waiting_line) ≡ err no_result
unfolding run_worker lines read_lines
waiting parse = refl

failed :
    (parse : Text → Option ℕ) → run_worker parse (ok (waiting_line ++ error_line)) ≡ err no_result
unfolding run_worker lines read_lines
failed parse = refl

module _ {to_string : ℕ → Text} {parse : Text → Option ℕ}
    (texts : NumberTexts to_string parse) where
  printed :
      (w : ConnWorld)
      → Metered w
      → (o : Option ℕ) → w.conn_latency ≡ o
      → run_worker parse (ok (waiting_line ++ conn_report to_string w o))
        ≡ read_as (conn_numbers w o)
  printed w m none e = failed parse
  printed w m (some n) e =
      let ns = bytes_since w.start_bandwidth w.max_conn_bytes ∷ (w.end_cpu - w.start_cpu) ∷ [] in
      let b = m.bytes in
      let c = m.cpu in
      ap (λ t. run_worker parse (ok (waiting_line ++ t)))
        (sym (append-nil (report_result to_string (n ∷ ns))))
      ∙ run_worker-report_result to_string parse texts waiting_line [] n ns refl waits_plain
          (m.latency n e, (omega arith, (omega arith, tt)))

  conn_worker_lem :
      (args : List Text) (w : ConnWorld)
      → Metered w
      → run_worker parse (ok (conn_worker to_string args w).1) ≡ read_as (reported args w)
  unfolding conn_worker
  conn_worker_lem args w m =
      ground (arith, silent parse, waiting parse, printed w m w.conn_latency refl)

abbrev pub cons_some : {A : Type 0} → Option A → List A → List A
cons_some none rest = rest
cons_some (some a) rest = a ∷ rest

-- The reports of some runs.
abbrev pub reports : List (List Text × ConnWorld) → List (ℕ × ℕ × ℕ)
reports [] = []
reports ((args, w) ∷ runs) = cons_some (reported args w) (reports runs)

complete-read_as :
    (o : Option (ℕ × ℕ × ℕ)) (rs : List (Result (List ℕ) WorkerError))
    → complete (read_as o ∷ rs) ≡ cons_some o (complete rs)
complete-read_as none rs = refl
complete-read_as (some (a, b, c)) rs = refl

-- What the orchestrator gets of each run.
abbrev pub outputs :
    (ℕ → Text)
    → (Text → Option ℕ)
    → List (List Text × ConnWorld)
    → List (Result (List ℕ) WorkerError)
outputs to_string parse [] = []
outputs to_string parse ((args, w) ∷ runs) =
    run_worker parse (ok (conn_worker to_string args w).1) ∷ outputs to_string parse runs

module _ {to_string : ℕ → Text} {parse : Text → Option ℕ}
    (texts : NumberTexts to_string parse) where
  complete-outputs :
      (runs : List (List Text × ConnWorld))
      → All (λ r. Metered r.1) runs
      → complete (outputs to_string parse runs) ≡ reports runs
  complete-outputs [] m = refl
  complete-outputs ((args, w) ∷ runs) m =
      ap (λ r. complete (r ∷ outputs to_string parse runs)) (conn_worker_lem texts args w m.0)
      ∙ complete-read_as (reported args w) (outputs to_string parse runs)
      ∙ ap (cons_some (reported args w)) (complete-outputs runs m.1)

  -- If the texts of numbers read back and what the workers read of clock and meters are u64: the
  -- measurement of connections makes its rows of three histograms, of the latencies, the bytes and
  -- the times of exactly those workers of which every step worked and whose connection came in
  -- time, in their order; a worker that failed or timed out adds nothing. It fails if and only if
  -- one of the histograms cannot take its column.
  pub measure-conn_worker :
      {H : Type 0} (hist : Histogram H) (name latency_ms bytes cpu_ms : Text)
      (runs : List (List Text × ConnWorld))
      → All (λ r. Metered r.1) runs
      → measure_connection_establishment hist to_string name latency_ms bytes cpu_ms
          (outputs to_string parse runs)
        ≡ or_fail (columns hist to_string (reports runs) (new_hists hist to_string)) λ h. some (
            report_hist hist to_string name latency_ms h.latency_hist whole
            ++ (report_hist hist to_string name bytes h.bytes_hist whole
                ++ report_hist hist to_string name cpu_ms h.cpu_hist thousandth))
  unfolding measure_connection_establishment
  measure-conn_worker hist name latency_ms bytes cpu_ms runs m =
      ap
        (λ x. or_fail x λ h. some (
          report_hist hist to_string name latency_ms h.latency_hist whole
          ++ (report_hist hist to_string name bytes h.bytes_hist whole
              ++ report_hist hist to_string name cpu_ms h.cpu_hist thousandth)))
        (iterations_lem hist to_string (outputs to_string parse runs) (new_hists hist to_string)
          ∙ ap (λ rows. columns hist to_string rows (new_hists hist to_string))
              (complete-outputs runs m))
