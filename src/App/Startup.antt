-- ===== src/App/Startup.antt =====
-- The start of the application, `new_with_config` of src/app.rs, with `setup_db` there and
-- `NetworkEndpoint::start` of src/network_endpoint.rs; and the end of its actor, `cleanup`.
--
-- What sqlx and iroh answer is the parameter `Libraries`; a function's result is paired with the calls
-- on them that it made, oldest first. A text is the list of its code points. The instance of the
-- invite manager holds no state of its own.
mod Failures
mod Shutdown
mod Examples
use tryst_core_portfolio.Prelude.{
  Text, ℕ, suc, Bool, true, false, List, [], ◌∷◌, ◌++◌, Option, none, some, if◌then◌else◌, Result,
  ok, err, map_err,
}
use Prim.Native.String.{String}
use tryst_core_portfolio.Prelude.Runs.{Run, ◌>>=◌, pure, call}
use tryst_core_portfolio.Failure.{
  LibError, GossipError, from_lib_error, from_anyhow, sqlx, sqlx_migrations, unexpected,
}
use tryst_core_portfolio.App.{
  shuts_router, AppActor, Event, Ending, waits, shut_down, exits_with_error, run,
}
use tryst_core_portfolio.App.Calls.{Handle}

pub record Libraries (SecretKey PublicKey Pool Discovery Endpoint : Type 0) : Type 0 where
  pub from_str : Text → Option SecretKey
  pub public : SecretKey → PublicKey
  pub public_text : PublicKey → Text
  pub database_exists : Text → Result Bool String
  pub create_database : Text → Result (Unit {0}) String
  pub connect : Text → Result Pool String
  pub migrate : Pool → Result (Unit {0}) String
  pub build_discovery : SecretKey → (ttl : ℕ) → (include_direct_addresses : Bool) → Option Discovery
  pub bind : SecretKey → Discovery → Option Endpoint

-- The calls that a start makes.
pub data Call (Pool Endpoint : Type 0) : Type 0 where
  checks_database creates_database connects : Text → Call Pool Endpoint
  migrates : Pool → Call Pool Endpoint
  builds_discovery binds : Call Pool Endpoint
  spawns_router spawns_actor : Endpoint → Call Pool Endpoint

-- `context`: an error, or nothing, becomes the error with the text.
abbrev pub or_else : {A E : Type 0} → E → Option A → Result A E
or_else e none = err e
or_else e (some a) = ok a

abbrev pub failing : {A E F : Type 0} → F → Result A E → Result A F
failing f = map_err (λ _. f)

-- `Application`, with the actor that its task owns.
pub record Application (SecretKey PublicKey Pool Endpoint : Type 0) : Type 0 where
  pub secret_key : SecretKey
  pub db_pool : Pool
  pub endpoint : Endpoint
  pub handle : Handle
  pub actor : AppActor PublicKey

-- "/" and ".db".
abbrev slash : Text
slash = 47 ∷ []

abbrev dot_db : Text
dot_db = 46 ∷ 100 ∷ 98 ∷ []

module _ {SecretKey PublicKey Pool Discovery Endpoint : Type 0}
    (libs : Libraries SecretKey PublicKey Pool Discovery Endpoint) where
  open libs use {
    from_str, public, public_text, database_exists, create_database, connect, migrate,
    build_discovery, bind,
  }

  -- `setup_db`.
  unfoldable pub setup_db : Text → Run (Call Pool Endpoint) Pool LibError
  setup_db db_url = do
    exists ← call (checks_database db_url) (map_err sqlx (database_exists db_url))
    _ ←
        if exists
        then pure tt
        else call (creates_database db_url) (map_err sqlx (create_database db_url))
    db_pool ← call (connects db_url) (map_err sqlx (connect db_url))
    _ ← call (migrates db_pool) (map_err sqlx_migrations (migrate db_pool))
    pure db_pool

  -- `NetworkEndpoint::start`.
  unfoldable pub start : SecretKey → Discovery → Run (Call Pool Endpoint) Endpoint LibError
  start secret_key discovery = do
    endpoint ← call binds (
        or_else (unexpected "Failed to bind endpoint connection with selected discovery methods.")
          (bind secret_key discovery))
    _ ← call (spawns_router endpoint) (ok tt)
    pure endpoint

  -- `AppActor::new`. The id of an endpoint is the public part of its key.
  unfoldable pub new_actor : SecretKey → AppActor PublicKey
  new_actor secret_key = record {
    secret_key_public = public secret_key;
    endpoint_id = public secret_key;
    registry = record { chat_managers = []; next_id = 0; spawned = [] };
    answers = [];
    shut = [];
  }

  -- `new_with_config`, for the time to live that the republish delay gives; the actor's task is the
  -- task 0.
  unfoldable pub new_with_config :
      Text
      → Text
      → (ttl : ℕ)
      → Run (Call Pool Endpoint) (Application SecretKey PublicKey Pool Endpoint) GossipError
  unfolding setup_db start new_actor from_lib_error
  new_with_config secret_key_text db_directory_path ttl = do
    secret_key ← (
      or_else (from_anyhow "Expected to get secret key from string.") (from_str secret_key_text),
      [],
    )
    db_pool ←
        (let (result, calls) =
            setup_db
              (db_directory_path ++ (slash ++ (public_text (public secret_key) ++ dot_db))) in
          (map_err from_lib_error result, calls))
    discovery ← call builds_discovery (
        or_else (from_anyhow "Failed to build standard discovery.")
          (build_discovery secret_key ttl false))
    endpoint ←
        (let (result, calls) = start secret_key discovery in
          (failing (from_anyhow "Failed to start network endpoint.") result, calls))
    _ ← call (spawns_actor endpoint) (ok tt)
    pure (record {
      secret_key = secret_key;
      db_pool = db_pool;
      endpoint = endpoint;
      handle = record { cancelled = false; join_handle = some 0; awaited = [] };
      actor = new_actor secret_key;
    })

  -- `new`, with iroh's default for the time to live.
  unfoldable pub new :
      (default_pkarr_ttl : ℕ)
      → Text
      → Text
      → Run (Call Pool Endpoint) (Application SecretKey PublicKey Pool Endpoint) GossipError
  unfolding new_with_config
  new default_pkarr_ttl secret_key db_directory_path =
      new_with_config secret_key db_directory_path default_pkarr_ttl

-- `cleanup`: the router is shut down; an error of that is logged only.
abbrev pub cleanup : {EndpointId : Type 0} → AppActor EndpointId → AppActor EndpointId
cleanup a = record a { shut = a.shut ++ shuts_router ∷ [] }

-- The actor's task: when the loop has ended, it cleans up.
unfoldable pub actor_task :
    {EndpointId : Type 0} (dec : Discrete EndpointId) (is_open : ℕ → Bool)
    → List (Event EndpointId)
    → AppActor EndpointId
    → AppActor EndpointId × Ending
unfolding run
actor_task dec is_open es a =
    let (a', ending) = run dec is_open es a in
    (elim ending [ waits ↦ a' | shut_down ↦ cleanup a' | exits_with_error ↦ cleanup a' ], ending)
