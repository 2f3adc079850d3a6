-- ===== src/App/Startup/Shutdown.antt =====
-- What the task of the application's actor, src/app.rs, has closed when it ends.
use tryst_core_portfolio.Prelude.{
  ℕ, Bool, List, [], ◌∷◌, ◌++◌, ◌≡◌, refl, ◌⊎◌, inl, inr, arith, sym, append-nil, append_assoc,
}
use tryst_core_portfolio.App.{
  AppActor, Closing, closes_pool, shuts_router, Event, Ending, waits, shut_down, exits_with_error,
  run, turn, cancelled, channel_closed, spawned_runs, accept_failed, get_chat_manager, accepted,
  handle_actor_request,
}
use tryst_core_portfolio.App.Requests.{ending, run-answers}
use tryst_core_portfolio.App.Startup.{actor_task}

Ending-cases : (e : Ending) → (e ≡ waits) ⊎ (e ≡ shut_down) ⊎ (e ≡ exits_with_error)
Ending-cases waits = inl refl
Ending-cases shut_down = inr (inl refl)
Ending-cases exits_with_error = inr (inr refl)

abbrev closes : Ending → List Closing
closes shut_down = closes_pool ∷ []
closes waits = []
closes exits_with_error = []

module _ {EndpointId : Type 0} (dec : Discrete EndpointId) (is_open : ℕ → Bool) where
  run-shut :
      (es : List (Event EndpointId)) (a : AppActor EndpointId)
      → (run dec is_open es a).0.shut ≡ a.shut ++ closes (ending es)
  unfolding run turn handle_actor_request
  run-shut [] a = sym (append-nil a.shut)
  run-shut (cancelled ∷ es) a = refl
  run-shut (channel_closed ∷ es) a = sym (append-nil a.shut)
  run-shut (spawned_runs ∷ es) a = run-shut es (turn dec is_open spawned_runs a).0
  run-shut (accept_failed ∷ es) a = run-shut es a
  run-shut (accepted c opened others ∷ es) a =
      run-shut es (turn dec is_open (accepted c opened others) a).0
  run-shut (get_chat_manager t remote opened others ∷ es) a =
      let e : Event EndpointId = get_chat_manager t remote opened others in
      run-shut es (turn dec is_open e a).0

  -- The task waits as long as neither the cancellation nor the closed channel has come, and has then
  -- closed nothing. The first of these that comes ends it: after the cancellation it closes the pool
  -- and then shuts down the router, after the closed channel it only shuts down the router.
  pub actor_task_lem :
      (es : List (Event EndpointId)) (a : AppActor EndpointId)
      → ((ending es ≡ waits)
          × ((actor_task dec is_open es a).1 ≡ waits)
          × ((actor_task dec is_open es a).0.shut ≡ a.shut))
        ⊎ ((ending es ≡ shut_down)
            × ((actor_task dec is_open es a).1 ≡ shut_down)
            × ((actor_task dec is_open es a).0.shut ≡ a.shut ++ (closes_pool ∷ shuts_router ∷ [])))
        ⊎ ((ending es ≡ exits_with_error)
            × ((actor_task dec is_open es a).1 ≡ exits_with_error)
            × ((actor_task dec is_open es a).0.shut ≡ a.shut ++ (shuts_router ∷ [])))
  unfolding actor_task
  actor_task_lem es a =
      let q = (run-answers dec is_open es a).1 in
      let p = run-shut es a in
      let n = append-nil a.shut in
      let l = append_assoc a.shut (closes_pool ∷ []) (shuts_router ∷ []) in
      elim (Ending-cases (ending es)) [
        | inl w ↦ inl (w, ground arith, ground arith)
        | inr (inl s) ↦ inr (inl (s, ground arith, ground arith))
        | inr (inr x) ↦ inr (inr (x, ground arith, ground arith))
      ]
