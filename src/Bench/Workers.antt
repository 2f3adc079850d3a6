-- ===== src/Bench/Workers.antt =====
-- The workers of the benchmarks, src/bin/bench_p2p_conn_worker.rs and
-- src/bin/bench_tryst_discovery_worker.rs, and what they use of src/bench_utils.rs.
--
-- A worker is its result and what it prints; a text is the list of its code points. What the system
-- and the applications answer to a worker is a record: the files, the clocks, the traffic.
pub mod Outputs
mod Examples
use tryst_core_portfolio.Prelude.{
  Text, ℕ, zero, suc, ◌+◌, ◌-◌, ◌*◌, ◌%◌, ◌^◌, Bool, true, false, List, [], ◌∷◌, ◌++◌, Option, none,
  some, if◌then◌else◌, ◌==◌, length, Result, ok, err, map_err,
}
use tryst_core_portfolio.Prelude.Runs.{Run, ◌>>=◌, pure}
use tryst_core_portfolio.Bench.Report.{report_result}
use tryst_core_portfolio.Tryst.Discovery
use tryst_core_portfolio.Tryst.Discovery.{TrystDiscovery, resolve}
use tryst_core_portfolio.Tryst.Invite.{create_invite_str, receive_invite_str}
use tryst_core_portfolio.App.Keys.{Hex, secret_key_from_hex_lower}

-- `get_cpu_time_us`, of the seconds and microseconds of the user's and the system's time. A u64
-- wraps around in a release build.
abbrev pub get_cpu_time_us : ℕ × ℕ → ℕ × ℕ → ℕ
get_cpu_time_us (user_sec, user_usec) (sys_sec, sys_usec) =
    ((user_sec * 1000000 + user_usec) % 2 ^ 64 + (sys_sec * 1000000 + sys_usec) % 2 ^ 64) % 2 ^ 64

-- `setup_bench_db`: the directory that was there is removed, and it is made anew.
abbrev pub setup_bench_db :
    (exists : Bool)
    → (removed created : Result (Unit {0}) (Unit {0})) → Result (Unit {0}) (Unit {0})
setup_bench_db true (err e) created = err e
setup_bench_db true (ok _) created = created
setup_bench_db false removed created = created

-- `println!("ERROR")`.
abbrev pub error_line : Text
error_line = 69 ∷ 82 ∷ 82 ∷ 79 ∷ 82 ∷ 10 ∷ []

-- "Waiting for DHT propagation...".
abbrev pub waiting_line : Text
waiting_line =
    87 ∷ 97 ∷ 105 ∷ 116 ∷ 105 ∷ 110 ∷ 103 ∷ 32 ∷ 102 ∷ 111 ∷ 114 ∷ 32 ∷ 68 ∷ 72 ∷ 84 ∷ 32 ∷ 112
    ∷ 114 ∷ 111 ∷ 112 ∷ 97 ∷ 103 ∷ 97 ∷ 116 ∷ 105 ∷ 111 ∷ 110 ∷ 46 ∷ 46 ∷ 46 ∷ 10 ∷ []

-- A step that prints nothing; its error ends the worker.
abbrev try_step : {A E : Type 0} → Result A E → Run ℕ A (Unit {0})
try_step result = (map_err (λ _. tt) result, [])

abbrev print : Text → Run ℕ (Unit {0}) (Unit {0})
print t = (ok tt, t)

abbrev args_len_is_4 : List Text → Result (Unit {0}) (Unit {0})
args_len_is_4 args = if length args == 4 then ok tt else err tt

-- `max.saturating_sub(start_in + start_out)`.
abbrev pub bytes_since : ℕ × ℕ → ℕ → ℕ
bytes_since (start_in, start_out) max_bytes = max_bytes - (start_in + start_out) % 2 ^ 64

-- What a connection worker meets: the steps that may fail, whether and when the receiver was told of a
-- connection within 30 seconds, and the meters.
pub record ConnWorld : Type 0 where
  pub bench_db : Result (Unit {0}) (Unit {0})
  pub alice : Result (Unit {0}) (Unit {0})
  pub bob : Result (Unit {0}) (Unit {0})
  pub invite : Result (Unit {0}) (Unit {0})
  pub received : Result (Unit {0}) (Unit {0})
  pub manager : Result (Unit {0}) (Unit {0})
  pub subscribed : Result (Unit {0}) (Unit {0})
  pub conn_latency : Option ℕ
  pub start_bandwidth : ℕ × ℕ
  pub max_conn_bytes : ℕ
  pub start_cpu : ℕ
  pub end_cpu : ℕ

abbrev pub conn_report : (ℕ → Text) → ConnWorld → Option ℕ → Text
conn_report to_string w none = error_line
conn_report to_string w (some conn_latency) =
    report_result to_string (
      conn_latency
      ∷ bytes_since w.start_bandwidth w.max_conn_bytes
      ∷ (w.end_cpu - w.start_cpu)
      ∷ [])

-- `main` of the connection worker.
unfoldable pub conn_worker : (ℕ → Text) → List Text → ConnWorld → Run ℕ (Unit {0}) (Unit {0})
conn_worker to_string args w = do
  _ ← try_step (args_len_is_4 args)
  _ ← try_step w.bench_db
  _ ← try_step w.alice
  _ ← try_step w.bob
  _ ← try_step w.invite
  _ ← print waiting_line
  _ ← try_step w.received
  _ ← try_step w.manager
  _ ← try_step w.subscribed
  print (conn_report to_string w w.conn_latency)

-- What a discovery worker meets: the steps that may fail, the items of a stream, the clock at each of
-- the ten attempts, and the meters.
pub record DhtWorld (Stream : Type 0) : Type 0 where
  pub bench_db : Result (Unit {0}) (Unit {0})
  pub bob_db : Result (Unit {0}) (Unit {0})
  pub alice_db : Result (Unit {0}) (Unit {0})
  pub has_next : ℕ → Stream → Bool
  pub elapsed : ℕ → ℕ
  pub publish_start : ℕ × ℕ
  pub max_publish_bytes : ℕ
  pub publish_cpu : ℕ × ℕ
  pub resolve_start : ℕ × ℕ
  pub max_resolve_bytes : ℕ
  pub resolve_cpu : ℕ × ℕ

abbrev cpu_between : ℕ × ℕ → ℕ
cpu_between (start_cpu, end_cpu) = end_cpu - start_cpu

abbrev first_key : List Text → Text
first_key (_ ∷ _ ∷ bob_sk ∷ _) = bob_sk
first_key _ = []

abbrev second_key : List Text → Text
second_key (_ ∷ _ ∷ _ ∷ alice_sk ∷ _) = alice_sk
second_key _ = []

module _ {SecretKey PublicKey Repo Stream : Type 0} (to_string : ℕ → Text) (hex : Hex)
    (to_bytes : SecretKey → List ℕ) (key_of_bytes : List ℕ → SecretKey)
    (public : SecretKey → PublicKey) (text_of : PublicKey → Text)
    (from_str : Text → Option PublicKey) (alice_repo : Repo) where
  -- The loop over the attempts, with some left: the latency of the first that yields an item.
  unfoldable pub attempts :
      DhtWorld Stream → TrystDiscovery Repo → PublicKey → (left : ℕ) → (i : ℕ) → Option ℕ
  unfolding resolve
  attempts w discovery bob zero i = none
  attempts w discovery bob (suc left) i =
      let later = attempts w discovery bob left (suc i) in
      elim (resolve {Stream = Stream} discovery bob) [
        | none ↦ later
        | some stream ↦ if w.has_next i stream then some (w.elapsed i) else later
      ]

  abbrev pub dht_report : DhtWorld Stream → Option ℕ → Text
  dht_report w none = error_line
  dht_report w (some res_latency) = report_result to_string (
      bytes_since w.publish_start w.max_publish_bytes
      ∷ cpu_between w.publish_cpu
      ∷ res_latency
      ∷ bytes_since w.resolve_start w.max_resolve_bytes
      ∷ cpu_between w.resolve_cpu
      ∷ [])

  -- `main` of the discovery worker; alice's discovery is built on her repository.
  unfoldable pub dht_worker : List Text → DhtWorld Stream → Run ℕ (Unit {0}) (Unit {0})
  unfolding secret_key_from_hex_lower create_invite_str receive_invite_str attempts
  dht_worker args w = do
    _ ← try_step (args_len_is_4 args)
    _ ← try_step w.bench_db
    _ ← try_step w.bob_db
    _ ← try_step w.alice_db
    bob_sk ← try_step (secret_key_from_hex_lower hex to_bytes key_of_bytes (first_key args))
    alice_sk ← try_step (secret_key_from_hex_lower hex to_bytes key_of_bytes (second_key args))
    _ ←
        try_step
          (receive_invite_str text_of from_str (create_invite_str text_of from_str (public bob_sk)))
    alice_discovery ← try_step (Discovery.build {E = Unit {0}} (Discovery.new alice_sk alice_repo))
    print (dht_report w (attempts w alice_discovery (public bob_sk) 10 0))
