-- ===== src/Bench/Orchestrator/Main.antt =====
-- `main` of src/bin/bench_orchestrator.rs, with `measure_crypto`: the search for the configuration, the
-- measurements that it asks for, and the file of the results.
--
-- The file system, the parser ron and what the workers report are parameters.
mod Written
use tryst_core_portfolio.Prelude.{
  Text, ℕ, ◌-◌, ◌/◌, Bool, true, false, List, [], ◌∷◌, ◌++◌, Option, none, some, if◌then◌else◌,
  Result, ok, err, ◌>>=◌, ◌≡◌, ◌≢◌, refl, ap, sym, ◌∙◌, ◌⊎◌, inl, inr, All, arith, Option-cases,
  Result-cases, Bool-cases, subst,
}
use tryst_core_portfolio.Bench.Report.{WorkerError, lines}
use tryst_core_portfolio.Bench.Report.Reading.{Plain, lines-Plain}
use tryst_core_portfolio.Bench.Orchestrator.{Histogram, measure_connection_establishment}
use tryst_core_portfolio.Bench.Orchestrator.Discovery.{measure_dht_discovery}

-- "bench_config.ron".
abbrev pub config_here : Text
config_here =
    98 ∷ 101 ∷ 110 ∷ 99 ∷ 104 ∷ 95 ∷ 99 ∷ 111 ∷ 110 ∷ 102 ∷ 105 ∷ 103 ∷ 46 ∷ 114 ∷ 111 ∷ 110 ∷ []

-- "./config/bench_config.ron".
abbrev pub config_below : Text
config_below =
    46 ∷ 47 ∷ 99 ∷ 111 ∷ 110 ∷ 102 ∷ 105 ∷ 103 ∷ 47 ∷ 98 ∷ 101 ∷ 110 ∷ 99 ∷ 104 ∷ 95 ∷ 99 ∷ 111
    ∷ 110 ∷ 102 ∷ 105 ∷ 103 ∷ 46 ∷ 114 ∷ 111 ∷ 110 ∷ []

-- "../bench_config.ron".
abbrev pub config_above : Text
config_above =
    46 ∷ 46 ∷ 47 ∷ 98 ∷ 101 ∷ 110 ∷ 99 ∷ 104 ∷ 95 ∷ 99 ∷ 111 ∷ 110 ∷ 102 ∷ 105 ∷ 103 ∷ 46 ∷ 114
    ∷ 111 ∷ 110 ∷ []

-- "run_type,metric,param,value".
abbrev pub header : Text
header =
    114 ∷ 117 ∷ 110 ∷ 95 ∷ 116 ∷ 121 ∷ 112 ∷ 101 ∷ 44 ∷ 109 ∷ 101 ∷ 116 ∷ 114 ∷ 105 ∷ 99 ∷ 44 ∷ 112
    ∷ 97 ∷ 114 ∷ 97 ∷ 109 ∷ 44 ∷ 118 ∷ 97 ∷ 108 ∷ 117 ∷ 101 ∷ []

-- "crypto_cost,epochs,".
abbrev pub crypto_cost : Text
crypto_cost =
    99 ∷ 114 ∷ 121 ∷ 112 ∷ 116 ∷ 111 ∷ 95 ∷ 99 ∷ 111 ∷ 115 ∷ 116 ∷ 44 ∷ 101 ∷ 112 ∷ 111 ∷ 99 ∷ 104
    ∷ 115 ∷ 44 ∷ []

-- ",cpu_time_ms,".
abbrev pub cpu_time_ms : Text
cpu_time_ms = 44 ∷ 99 ∷ 112 ∷ 117 ∷ 95 ∷ 116 ∷ 105 ∷ 109 ∷ 101 ∷ 95 ∷ 109 ∷ 115 ∷ 44 ∷ []

-- "dht_publish".
abbrev pub dht_publish : Text
dht_publish = 100 ∷ 104 ∷ 116 ∷ 95 ∷ 112 ∷ 117 ∷ 98 ∷ 108 ∷ 105 ∷ 115 ∷ 104 ∷ []

-- "dht_resolve".
abbrev pub dht_resolve : Text
dht_resolve = 100 ∷ 104 ∷ 116 ∷ 95 ∷ 114 ∷ 101 ∷ 115 ∷ 111 ∷ 108 ∷ 118 ∷ 101 ∷ []

-- "conn_est".
abbrev pub conn_est : Text
conn_est = 99 ∷ 111 ∷ 110 ∷ 110 ∷ 95 ∷ 101 ∷ 115 ∷ 116 ∷ []

-- "bytes".
abbrev pub bytes : Text
bytes = 98 ∷ 121 ∷ 116 ∷ 101 ∷ 115 ∷ []

-- "cpu_ms".
abbrev pub cpu_ms : Text
cpu_ms = 99 ∷ 112 ∷ 117 ∷ 95 ∷ 109 ∷ 115 ∷ []

-- "latency_ms".
abbrev pub latency_ms : Text
latency_ms = 108 ∷ 97 ∷ 116 ∷ 101 ∷ 110 ∷ 99 ∷ 121 ∷ 95 ∷ 109 ∷ 115 ∷ []

-- `BenchConfig`, with the numbers of `CryptoConfig`, `DiscoveryConfig` and `LatencyConfig`.
pub record BenchConfig : Type 0 where
  pub crypto : Option (List ℕ)
  pub discovery : Option ℕ
  pub latency : Option ℕ

pub data MainError : Type 0 where
  config_not_found config_not_opened bad_config not_measured not_written : MainError

abbrev pub first_that : (Text → Bool) → List Text → Option Text
first_that exists [] = none
first_that exists (path ∷ paths) = if exists path then some path else first_that exists paths

-- "bench_config.ron" in the directory of the executable, where that has one: its path is an argument.
abbrev pub beside : (Text → Bool) → Option Text → Option Text
beside exists none = none
beside exists (some alt_path) = if exists alt_path then some alt_path else none

-- The search in `main`.
unfoldable pub find_config : (Text → Bool) → (alt_path : Option Text) → Option Text
find_config exists alt_path =
    elim (first_that exists (config_here ∷ config_below ∷ config_above ∷ [])) [
      | some path ↦ some path
      | none ↦ beside exists alt_path
    ]

-- `measure_crypto`: `cpu` is the processor time before and after the thousand rounds of each entry, and
-- `ms_text` the text of microseconds as milliseconds with six digits.
unfoldable pub measure_crypto :
    (to_string ms_text : ℕ → Text) (cpu : ℕ → ℕ × ℕ) → List ℕ → List Text
measure_crypto to_string ms_text cpu [] = []
measure_crypto to_string ms_text cpu (epochs ∷ rest) =
    (crypto_cost
      ++ (to_string epochs ++ (cpu_time_ms ++ ms_text (((cpu epochs).1 - (cpu epochs).0) / 1000))))
    ∷ measure_crypto to_string ms_text cpu rest

-- `all_results.join("\n") + "\n"`.
unfoldable pub join_lines : List Text → Text
join_lines [] = 10 ∷ []
join_lines (row ∷ []) = row ++ 10 ∷ []
join_lines (row ∷ next ∷ rows) = row ++ 10 ∷ join_lines (next ∷ rows)

abbrev pub or_error : {A : Type 0} → MainError → Option A → Result A MainError
or_error e none = err e
or_error e (some a) = ok a

-- What `main` meets.
pub record Machine : Type 0 where
  pub exists : Text → Bool
  pub alt_path : Option Text
  pub open_file : Text → Option Text
  pub from_reader : Text → Option BenchConfig
  pub cpu : ℕ → ℕ × ℕ
  pub dht_workers : (iterations : ℕ) → List (Result (List ℕ) WorkerError)
  pub conn_workers : (iterations : ℕ) → List (Result (List ℕ) WorkerError)
  pub write : Text → Bool

module _ {H : Type 0} (hist : Histogram H) (to_string ms_text : ℕ → Text) (m : Machine) where
  abbrev pub crypto_rows : Option (List ℕ) → List Text
  crypto_rows none = []
  crypto_rows (some epochs) = measure_crypto to_string ms_text m.cpu epochs

  abbrev pub dht_rows : Option ℕ → Option (List Text)
  dht_rows none = some []
  dht_rows (some iterations) =
      measure_dht_discovery hist to_string dht_publish dht_resolve bytes cpu_ms latency_ms
        (m.dht_workers iterations)

  abbrev pub conn_rows : Option ℕ → Option (List Text)
  conn_rows none = some []
  conn_rows (some iterations) =
      measure_connection_establishment hist to_string conn_est latency_ms bytes cpu_ms
        (m.conn_workers iterations)

  -- The rows of a configuration, or that a histogram took no value.
  abbrev pub all_results : BenchConfig → Result (List Text) MainError
  all_results config = do
    discovery ← or_error not_measured (dht_rows config.discovery)
    latency ← or_error not_measured (conn_rows config.latency)
    ok (header ∷ (crypto_rows config.crypto ++ (discovery ++ latency)))

  -- `main` from the path of the configuration on.
  unfoldable pub main_at : (config_path : Text) → Result Text MainError
  unfolding join_lines
  main_at config_path = do
    file ← or_error config_not_opened (m.open_file config_path)
    config ← or_error bad_config (m.from_reader file)
    rows ← all_results config
    if m.write (join_lines rows) then ok (join_lines rows) else err not_written

  -- `main`: what it has written to "bench_results.csv", or its error.
  unfoldable pub main : Result Text MainError
  unfolding find_config main_at
  main = or_error config_not_found (find_config m.exists m.alt_path) >>= main_at
