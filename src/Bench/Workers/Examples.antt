-- ===== src/Bench/Workers/Examples.antt =====
-- The theorem on the connection workers for one that connects, one that does not, and one without its
-- arguments.
use tryst_core_portfolio.Prelude.{
  Text, ℕ, ◌++◌, [], ◌∷◌, List, Option, none, some, ok, ◌≡◌, refl, length, arith,
}
use tryst_core_portfolio.Bench.Report.Examples.{ones, count, unary}
use tryst_core_portfolio.Bench.Orchestrator.{
  Histogram, or_fail, report_hist, new_hists, measure_connection_establishment, whole, thousandth,
}
use tryst_core_portfolio.Bench.Orchestrator.Columns.{columns}
use tryst_core_portfolio.Bench.Workers.{ConnWorld}
use tryst_core_portfolio.Bench.Workers.Outputs.{outputs, reports, measure-conn_worker}

abbrev listing : Histogram (List ℕ)
listing = record {
  new = [];
  record_value = λ n h. some (n ∷ h);
  len = λ h. length h;
  row_value = λ h q s. ones (length h);
}

abbrev world : Option ℕ → ConnWorld
world latency = record {
  bench_db = ok tt;
  alice = ok tt;
  bob = ok tt;
  invite = ok tt;
  received = ok tt;
  manager = ok tt;
  subscribed = ok tt;
  conn_latency = latency;
  start_bandwidth = (1, 2);
  max_conn_bytes = 7;
  start_cpu = 3;
  end_cpu = 5;
}

abbrev four_args : List Text
four_args = [] ∷ [] ∷ [] ∷ [] ∷ []

abbrev runs : List (List Text × ConnWorld)
runs = (four_args, world (some 6)) ∷ (four_args, world none) ∷ ([], world (some 8)) ∷ []

only_the_first : reports runs ≡ (6, 4, 2) ∷ []
only_the_first = refl

measure-conn_worker_example :
    measure_connection_establishment listing ones
      (99 ∷ [])
      (108 ∷ [])
      (98 ∷ [])
      (117 ∷ [])
      (outputs ones count runs)
    ≡ or_fail (columns listing ones (reports runs) (new_hists listing ones)) λ h. some (
        report_hist listing ones (99 ∷ []) (108 ∷ []) h.latency_hist whole
        ++ (report_hist listing ones (99 ∷ []) (98 ∷ []) h.bytes_hist whole
            ++ report_hist listing ones (99 ∷ []) (117 ∷ []) h.cpu_hist thousandth))
measure-conn_worker_example =
    measure-conn_worker unary listing (99 ∷ []) (108 ∷ []) (98 ∷ []) (117 ∷ []) runs (
      record { latency = λ n e. ground arith; bytes = omega arith; cpu = omega arith },
      (
        record { latency = λ n e. ground arith; bytes = omega arith; cpu = omega arith },
        (record { latency = λ n e. ground arith; bytes = omega arith; cpu = omega arith }, tt),
      ),
    )
