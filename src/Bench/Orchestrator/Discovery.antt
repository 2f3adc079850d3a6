-- ===== src/Bench/Orchestrator/Discovery.antt =====
-- `measure_dht_discovery` of src/bin/bench_orchestrator.rs, and what it makes of the workers of
-- src/bin/bench_tryst_discovery_worker.rs.
use tryst_core_portfolio.Prelude.{
  Text, ℕ, zero, suc, List, [], ◌∷◌, ◌++◌, Option, none, some, Result, ok, err, ◌≡◌, refl, ap, ◌∙◌,
  arith,
}
use tryst_core_portfolio.Bench.Report.{WorkerError, no_result, run_worker, lines, read_lines}
use tryst_core_portfolio.Bench.Orchestrator.{Histogram, or_fail, report_hist, whole, thousandth}
use tryst_core_portfolio.Bench.Workers.{DhtWorld, dht_worker, attempts, error_line}
use tryst_core_portfolio.Tryst.Discovery.{TrystDiscovery, resolve}
use tryst_core_portfolio.App.Keys.{Hex}

module _ {H : Type 0} (hist : Histogram H) (to_string : ℕ → Text) where
  open hist use {new, record_value}

  pub record DhtHists : Type 0 where
    pub pub_bytes_hist : H
    pub pub_cpu_hist : H
    pub res_latency_hist : H
    pub res_bytes_hist : H
    pub res_cpu_hist : H

  abbrev pub new_dht_hists : DhtHists
  new_dht_hists = record {
    pub_bytes_hist = new;
    pub_cpu_hist = new;
    res_latency_hist = new;
    res_bytes_hist = new;
    res_cpu_hist = new;
  }

  -- One iteration: five numbers are recorded, anything else is passed over.
  unfoldable pub dht_iteration : Result (List ℕ) WorkerError → DhtHists → Option DhtHists
  dht_iteration (ok (pub_bytes ∷ pub_cpu ∷ res_latency ∷ res_bytes ∷ res_cpu ∷ [])) h =
      or_fail (record_value pub_bytes h.pub_bytes_hist) λ a.
        or_fail (record_value pub_cpu h.pub_cpu_hist) λ b.
          or_fail (record_value res_latency h.res_latency_hist) λ c.
            or_fail (record_value res_bytes h.res_bytes_hist) λ d.
              or_fail (record_value res_cpu h.res_cpu_hist) λ e. some (record {
                pub_bytes_hist = a;
                pub_cpu_hist = b;
                res_latency_hist = c;
                res_bytes_hist = d;
                res_cpu_hist = e;
              })
  dht_iteration _ h = some h

  unfoldable pub dht_iterations : List (Result (List ℕ) WorkerError) → DhtHists → Option DhtHists
  unfolding dht_iteration
  dht_iterations [] h = some h
  dht_iterations (r ∷ rs) h = or_fail (dht_iteration r h) (dht_iterations rs)

  -- `measure_dht_discovery`, with the names that it gives its rows.
  unfoldable pub measure_dht_discovery :
      (dht_publish dht_resolve bytes cpu_ms latency_ms : Text)
      → List (Result (List ℕ) WorkerError)
      → Option (List Text)
  unfolding dht_iterations report_hist
  measure_dht_discovery dht_publish dht_resolve bytes cpu_ms latency_ms rs =
      or_fail (dht_iterations rs new_dht_hists) λ h. some (
        report_hist hist to_string dht_publish bytes h.pub_bytes_hist whole
        ++ (report_hist hist to_string dht_publish cpu_ms h.pub_cpu_hist thousandth
            ++ (report_hist hist to_string dht_resolve latency_ms h.res_latency_hist whole
                ++ (report_hist hist to_string dht_resolve bytes h.res_bytes_hist whole
                    ++ report_hist hist to_string dht_resolve cpu_ms h.res_cpu_hist thousandth))))

silent : (parse : Text → Option ℕ) → run_worker parse (ok []) ≡ err no_result
unfolding run_worker lines read_lines
silent parse = refl

failed : (parse : Text → Option ℕ) → run_worker parse (ok error_line) ≡ err no_result
unfolding run_worker lines read_lines
failed parse = refl

module _ {SecretKey PublicKey Repo Stream : Type 0} (to_string : ℕ → Text) (hex : Hex)
    (to_bytes : SecretKey → List ℕ) (key_of_bytes : List ℕ → SecretKey)
    (public : SecretKey → PublicKey) (text_of : PublicKey → Text)
    (from_str : Text → Option PublicKey) (alice_repo : Repo) where
  attempts_lem :
      (w : DhtWorld Stream) (discovery : TrystDiscovery Repo) (bob : PublicKey) (left i : ℕ)
      → attempts to_string hex to_bytes key_of_bytes public text_of from_str alice_repo w discovery
          bob left i
        ≡ none
  unfolding attempts resolve
  attempts_lem w discovery bob zero i = refl
  attempts_lem w discovery bob (suc left) i = attempts_lem w discovery bob left (suc i)

  dht_worker_lem :
      (parse : Text → Option ℕ) (args : List Text) (w : DhtWorld Stream)
      → run_worker parse (
          ok
            (dht_worker to_string hex to_bytes key_of_bytes public text_of from_str alice_repo args
              w).1)
        ≡ err no_result
  unfolding dht_worker
  dht_worker_lem parse args w = ground (
    arith,
    silent parse,
    failed parse,
    λ (d : TrystDiscovery Repo) (bob : PublicKey). attempts_lem w d bob 10 0,
  )

  -- What the orchestrator gets of each run of the discovery worker.
  abbrev pub dht_outputs :
      (Text → Option ℕ) → List (List Text × DhtWorld Stream) → List (Result (List ℕ) WorkerError)
  dht_outputs parse [] = []
  dht_outputs parse ((args, w) ∷ runs) =
      run_worker parse (
        ok
          (dht_worker to_string hex to_bytes key_of_bytes public text_of from_str alice_repo args
            w).1)
      ∷ dht_outputs parse runs

  module _ {H : Type 0} (hist : Histogram H) where
    dht_outputs_lem :
        (parse : Text → Option ℕ) (runs : List (List Text × DhtWorld Stream))
        (h : DhtHists hist to_string)
        → dht_iterations hist to_string (dht_outputs parse runs) h ≡ some h
    unfolding dht_iterations dht_iteration
    dht_outputs_lem parse [] h = refl
    dht_outputs_lem parse ((args, w) ∷ runs) h =
        ap
          (λ r.
            or_fail (dht_iteration hist to_string r h)
              (dht_iterations hist to_string (dht_outputs parse runs)))
          (dht_worker_lem parse args w)
        ∙ dht_outputs_lem parse runs h

    -- If a new histogram has no values, the measurement of the discovery makes no rows, however many
    -- workers run and whatever they meet: the discovery of this repository finds no peer, so that none
    -- of them reports a result.
    pub measure-dht_worker :
        (dht_publish dht_resolve bytes cpu_ms latency_ms : Text) (parse : Text → Option ℕ)
        (runs : List (List Text × DhtWorld Stream))
        → hist.len hist.new ≡ 0
        → measure_dht_discovery hist to_string dht_publish dht_resolve bytes cpu_ms latency_ms
            (dht_outputs parse runs)
          ≡ some []
    unfolding measure_dht_discovery report_hist
    measure-dht_worker dht_publish dht_resolve bytes cpu_ms latency_ms parse runs e =
        rw (dht_outputs_lem parse runs (new_dht_hists hist to_string), e) refl
