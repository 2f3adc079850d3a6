-- ===== src/App/Startup/Examples.antt =====
-- The theorem on the start of the application where a database is new, and where no endpoint is.
use tryst_core_portfolio.Prelude.{
  ℕ, true, false, [], ◌∷◌, Option, none, some, ok, err, ◌≡◌, refl, ◌⊎◌, ℕ_discrete,
}
use tryst_core_portfolio.Failure.{internal}
use tryst_core_portfolio.App.{
  closes_pool, shuts_router, cancelled, channel_closed, accept_failed, shut_down, waits,
  exits_with_error,
}
use tryst_core_portfolio.App.Startup.{
  Libraries, new_with_config, setup_db, start, actor_task, new_actor, checks_database,
  creates_database, connects, migrates, builds_discovery, binds,
}
use tryst_core_portfolio.App.Startup.Failures.{Succeeds, Fails, new_with_config_lem}
use tryst_core_portfolio.App.Startup.Shutdown.{actor_task_lem}

-- A key is a number and its text the list of it; the endpoint is bound where the flag says so.
abbrev libraries : Option ℕ → Libraries ℕ ℕ ℕ ℕ ℕ
libraries bound = record {
  from_str = λ t. elim t [ [] ↦ none | k ∷ _ ↦ some k ];
  public = λ k. k;
  public_text = λ k. k ∷ [];
  database_exists = λ url. ok false;
  create_database = λ url. ok tt;
  connect = λ url. ok 8;
  migrate = λ pool. ok tt;
  build_discovery = λ k ttl direct. some ttl;
  bind = λ k discovery. bound;
}

new_with_config_lem_example :
    Succeeds
      (libraries (some 5))
      (3 ∷ [])
      (1 ∷ [])
      2
      (new_with_config (libraries (some 5)) (3 ∷ []) (1 ∷ []) 2)
    ⊎ Fails
        (libraries (some 5))
        (3 ∷ [])
        (1 ∷ [])
        2
        (new_with_config (libraries (some 5)) (3 ∷ []) (1 ∷ []) 2)
new_with_config_lem_example = new_with_config_lem (libraries (some 5)) (3 ∷ []) (1 ∷ []) 2

unbound : new_with_config (libraries none) (3 ∷ []) (1 ∷ []) 2 ≡ (
  err (internal "Failed to start network endpoint."),
  checks_database (1 ∷ 47 ∷ 3 ∷ 46 ∷ 100 ∷ 98 ∷ [])
      ∷ creates_database (1 ∷ 47 ∷ 3 ∷ 46 ∷ 100 ∷ 98 ∷ [])
      ∷ connects (1 ∷ 47 ∷ 3 ∷ 46 ∷ 100 ∷ 98 ∷ [])
      ∷ migrates 8
      ∷ builds_discovery
      ∷ binds
      ∷ [],
)
unfolding new_with_config setup_db start
unbound = refl

actor_task_lem_example :
    ((shut_down ≡ waits)
      × ((actor_task ℕ_discrete
            (λ _. true)
            (accept_failed ∷ cancelled ∷ channel_closed ∷ [])
            (new_actor (libraries none) 3)).1
          ≡ waits)
      × ((actor_task ℕ_discrete
            (λ _. true)
            (accept_failed ∷ cancelled ∷ channel_closed ∷ [])
            (new_actor (libraries none) 3)).0.shut
          ≡ []))
    ⊎ ((shut_down ≡ shut_down)
        × ((actor_task ℕ_discrete
              (λ _. true)
              (accept_failed ∷ cancelled ∷ channel_closed ∷ [])
              (new_actor (libraries none) 3)).1
            ≡ shut_down)
        × ((actor_task ℕ_discrete
              (λ _. true)
              (accept_failed ∷ cancelled ∷ channel_closed ∷ [])
              (new_actor (libraries none) 3)).0.shut
            ≡ closes_pool ∷ shuts_router ∷ []))
    ⊎ ((shut_down ≡ exits_with_error)
        × ((actor_task ℕ_discrete
              (λ _. true)
              (accept_failed ∷ cancelled ∷ channel_closed ∷ [])
              (new_actor (libraries none) 3)).1
            ≡ exits_with_error)
        × ((actor_task ℕ_discrete
              (λ _. true)
              (accept_failed ∷ cancelled ∷ channel_closed ∷ [])
              (new_actor (libraries none) 3)).0.shut
            ≡ shuts_router ∷ []))
unfolding new_actor
actor_task_lem_example =
    actor_task_lem ℕ_discrete (λ _. true) (accept_failed ∷ cancelled ∷ channel_closed ∷ [])
      (new_actor (libraries none) 3)
