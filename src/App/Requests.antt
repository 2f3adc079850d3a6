-- ===== src/App/Requests.antt =====
-- The requests of src/app.rs: each that the actor takes up is answered once, in order.
use tryst_core_portfolio.Prelude.{
  ℕ, Bool, List, [], ◌∷◌, ◌++◌, Option, none, some, ◌≡◌, refl, ap, ◌∙◌, map_err, ◌⊎◌, inl, inr,
  Result, ok, err, arith, append-nil, Option-cases,
}
use Prim.Native.String.{String}
use tryst_core_portfolio.Failure.{LibError, from_lib_error, internal, protocol}
use tryst_core_portfolio.App.{
  AppActor, handle_actor_request, Event, Ending, waits, shut_down, exits_with_error, turn, run,
  cancelled, channel_closed, spawned_runs, accept_failed, get_chat_manager, accepted, chat_manager,
}

module _ {EndpointId : Type 0} where
  -- The `respond_to` of the requests before the first event that ends the loop, and that ending.
  abbrev pub requests : List (Event EndpointId) → List ℕ
  requests [] = []
  requests (cancelled ∷ es) = []
  requests (channel_closed ∷ es) = []
  requests (get_chat_manager t remote opened others ∷ es) = t ∷ requests es
  requests (spawned_runs ∷ es) = requests es
  requests (accept_failed ∷ es) = requests es
  requests (accepted h opened others ∷ es) = requests es

  abbrev pub ending : List (Event EndpointId) → Ending
  ending [] = waits
  ending (cancelled ∷ es) = shut_down
  ending (channel_closed ∷ es) = exits_with_error
  ending (get_chat_manager t remote opened others ∷ es) = ending es
  ending (spawned_runs ∷ es) = ending es
  ending (accept_failed ∷ es) = ending es
  ending (accepted h opened others ∷ es) = ending es

abbrev pub answered : List (ℕ × Result ℕ LibError) → List ℕ
answered [] = []
answered ((t, _) ∷ rest) = t ∷ answered rest

answered-step :
    (xs : List (ℕ × Result ℕ LibError)) (t : ℕ) (result : Result ℕ LibError) (ts : List ℕ)
    → answered (xs ++ (t, result) ∷ []) ++ ts ≡ answered xs ++ t ∷ ts
answered-step [] t result ts = refl
answered-step (x ∷ xs) t result ts = ap (◌∷◌ x.0) (answered-step xs t result ts)

module _ {EndpointId : Type 0} (dec : Discrete EndpointId) (is_open : ℕ → Bool) where
  -- The actor answers the requests that reach it before the loop ends, each exactly once and in
  -- their order, also those that fail; and only the cancellation and the closed channel end it: a
  -- failed request and a failed accept do not.
  pub run-answers :
      (es : List (Event EndpointId)) (a : AppActor EndpointId)
      → (answered (run dec is_open es a).0.answers ≡ answered a.answers ++ requests es)
        × ((run dec is_open es a).1 ≡ ending es)
  unfolding run turn handle_actor_request
  run-answers [] a = (ground (arith, append-nil (answered a.answers)), refl)
  run-answers (cancelled ∷ es) a = (ground (arith, append-nil (answered a.answers)), refl)
  run-answers (channel_closed ∷ es) a = (ground (arith, append-nil (answered a.answers)), refl)
  run-answers (spawned_runs ∷ es) a = run-answers es (turn dec is_open spawned_runs a).0
  run-answers (accept_failed ∷ es) a = run-answers es a
  run-answers (accepted h opened others ∷ es) a =
      run-answers es (turn dec is_open (accepted h opened others) a).0
  run-answers (get_chat_manager t remote opened others ∷ es) a =
      let e : Event EndpointId = get_chat_manager t remote opened others in
      let rest = run-answers es (turn dec is_open e a).0 in
      (rest.0 ∙ answered-step a.answers t _ (requests es), rest.1)

-- The caller of `chat_manager` gets the actor's manager if the id parses, the request is sent and
-- the actor answers; each failure is reported in its category: `protocol` for an id that does not
-- parse, `internal` for an actor that is gone, before or after the request was sent.
chat_manager_lem :
    {EndpointId : Type 0} (parsed : Result EndpointId String) (sent : Result (Unit {0}) String)
    (answer : EndpointId → Option (Result ℕ LibError))
    → ((e : String) × (parsed ≡ err e) × (chat_manager parsed sent answer ≡ err (protocol e)))
      ⊎ ((remote : EndpointId) × (parsed ≡ ok remote)
          × (((text : String) × (((e : String) × (sent ≡ err e)) ⊎ (answer remote ≡ none))
                × (chat_manager parsed sent answer ≡ err (internal text)))
              ⊎ ((result : Result ℕ LibError) × (answer remote ≡ some result)
                  × (chat_manager parsed sent answer ≡ map_err from_lib_error result))))
unfolding chat_manager from_lib_error
chat_manager_lem (err e) sent answer = inl (e, refl, refl)
chat_manager_lem (ok remote) (err e) answer = inr (remote, refl, inl (_, inl (e, refl), refl))
chat_manager_lem (ok remote) (ok _) answer = elim (Option-cases (answer remote)) [
  | inl gone ↦ inr (
    remote,
    refl,
    inl (
      "Failed to receive ChatManager from AppActor. Channel is closed.",
      inr gone,
      rw (gone) refl,
    ),
  )
  | inr (result, e) ↦ inr (remote, refl, inr (result, e, rw (e) refl))
]
