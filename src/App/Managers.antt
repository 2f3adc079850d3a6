-- ===== src/App/Managers.antt =====
-- The registry of src/app.rs holds one manager for each chat, for good.
use tryst_core_portfolio.Prelude.{
  ℕ, Bool, true, List, [], ◌∷◌, ◌++◌, Option, none, some, ◌≡◌, refl, ◌⊎◌, inl, inr, All, Result, ok,
  err, arith, Option-cases, Result-cases,
}
use tryst_core_portfolio.Failure.{LibError}
use tryst_core_portfolio.Chat.Connection.{ChatConnectionHandle}
use tryst_core_portfolio.App.{
  ChatId, ChatManager, Registry, AppActor, same_chat, get, inject, pass_accepted_conn_handle,
  new_manager, enter, handle_chat_manager, handle_actor_request, deliver, Event, turn, run,
  cancelled, channel_closed, spawned_runs, accept_failed, get_chat_manager, accepted,
}

module _ {EndpointId : Type 0} (dec : Discrete EndpointId) where
  same_chat_refl : (k : ChatId EndpointId) → same_chat dec k k ≡ true
  same_chat_refl k = ground arith

  get-append :
      (k : ChatId EndpointId) (i : ℕ) (ms ns : List (ChatManager EndpointId))
      → get dec k ms ≡ some i
      → get dec k (ms ++ ns) ≡ some i
  unfolding get
  get-append k i [] ns h = ground arith
  get-append k i (m ∷ ms) ns h = ground (arith, get-append k i ms ns)

  get-append-new :
      (k : ChatId EndpointId) (m : ChatManager EndpointId) (ms : List (ChatManager EndpointId))
      → get dec k ms ≡ none
      → m.chat_id ≡ k
      → get dec k (ms ++ m ∷ []) ≡ some m.id
  unfolding get
  get-append-new k m [] h e = ground (arith, same_chat_refl k)
  get-append-new k m (n ∷ ms) h e = ground (arith, get-append-new k m ms)

  get-pass :
      (is_open : ℕ → Bool) (k : ChatId EndpointId) (i : ℕ) (h : ChatConnectionHandle EndpointId)
      (ms : List (ChatManager EndpointId))
      → get dec k (pass_accepted_conn_handle is_open i h ms) ≡ get dec k ms
  unfolding get pass_accepted_conn_handle
  get-pass is_open k i h [] = refl
  get-pass is_open k i h (m ∷ ms) = ground (arith, get-pass is_open k i h ms)

  -- What happens to the registry besides takes no manager away.
  abbrev pub Keeps : (Registry EndpointId → Registry EndpointId) → Type 0
  Keeps others =
      (k : ChatId EndpointId) (i : ℕ) (r : Registry EndpointId)
      → get dec k r.chat_managers ≡ some i
      → get dec k (others r).chat_managers ≡ some i

  abbrev pub EventKeeps : Event EndpointId → Type 0
  EventKeeps (get_chat_manager t remote opened others) = Keeps others
  EventKeeps (accepted h opened others) = Keeps others
  EventKeeps cancelled = Unit {0}
  EventKeeps channel_closed = Unit {0}
  EventKeeps spawned_runs = Unit {0}
  EventKeeps accept_failed = Unit {0}

module _ {EndpointId : Type 0} (dec : Discrete EndpointId) (is_open : ℕ → Bool) where
  inject-get :
      (j : ChatId EndpointId) (i : ℕ) (conn_handle : Option (ChatConnectionHandle EndpointId))
      (r : Registry EndpointId)
      → get dec j (inject dec is_open i conn_handle r).chat_managers ≡ get dec j r.chat_managers
  inject-get j i none r = refl
  inject-get j i (some h) r = get-pass dec is_open j i h r.chat_managers

  deliver-get :
      (k : ChatId EndpointId) (rest : List (ℕ × ChatConnectionHandle EndpointId))
      (r : Registry EndpointId)
      → get dec k (deliver dec is_open rest r).chat_managers ≡ get dec k r.chat_managers
  deliver-get k [] r = refl
  deliver-get k ((i, h) ∷ rest) r = get-pass dec is_open k i h r.chat_managers

  enter-keeps :
      (local : EndpointId) (k : ChatId EndpointId)
      (conn_handle : Option (ChatConnectionHandle EndpointId)) (j : ChatId EndpointId) (i : ℕ)
      (r : Registry EndpointId)
      → get dec j r.chat_managers ≡ some i
      → get dec j (enter dec is_open local k conn_handle r).0.chat_managers ≡ some i
  unfolding enter
  enter-keeps local k conn_handle j i r h =
      let m = new_manager local r.next_id k conn_handle in
      elim (Option-cases (get dec k r.chat_managers)) [
        | inl none_yet ↦ ground (arith, get-append dec j i r.chat_managers (m ∷ []) h)
        | inr (x, found) ↦ ground arith
      ]

  enter-get :
      (local : EndpointId) (k : ChatId EndpointId)
      (conn_handle : Option (ChatConnectionHandle EndpointId)) (r : Registry EndpointId)
      → (i : ℕ) × ((enter dec is_open local k conn_handle r).1 ≡ ok i)
        × (get dec k (enter dec is_open local k conn_handle r).0.chat_managers ≡ some i)
  unfolding enter new_manager
  enter-get local k conn_handle r =
      let m = new_manager local r.next_id k conn_handle in
      elim (Option-cases (get dec k r.chat_managers)) [
        | inl none_yet ↦
            (r.next_id, ground arith, ground (arith, get-append-new dec k m r.chat_managers))
        | inr (i, found) ↦ (i, ground arith, ground arith)
      ]

  -- `handle_chat_manager` either reports why the chat cannot be opened, only for a chat that has no
  -- manager, or returns the manager that the registry has for the chat afterwards.
  pub handle_chat_manager_lem :
      (local : EndpointId) (opened : Result (Unit {0}) LibError)
      (others : Registry EndpointId → Registry EndpointId) (k : ChatId EndpointId)
      (conn_handle : Option (ChatConnectionHandle EndpointId)) (r : Registry EndpointId)
      → ((get dec k r.chat_managers ≡ none)
          × ((e : LibError) × (opened ≡ err e)
              × (handle_chat_manager dec is_open local opened others k conn_handle r
                  ≡ (others r, err e))))
        ⊎ ((i : ℕ) × ((handle_chat_manager dec is_open local opened others k conn_handle r).1
              ≡ ok i)
            × (get dec k
                  (handle_chat_manager dec is_open local opened others k conn_handle
                    r).0.chat_managers
                ≡ some i))
  unfolding handle_chat_manager
  handle_chat_manager_lem local opened others k conn_handle r =
      elim (Option-cases (get dec k r.chat_managers)) [
        | inr (i, found) ↦ inr (i, ground arith, ground (arith, inject-get k i conn_handle r))
        | inl none_yet ↦ elim (Result-cases opened) [
          | inr (e, refused) ↦ inl (none_yet, (e, refused, ground arith))
          | inl (u, opens) ↦
              let entered = enter-get local k conn_handle (others r) in
              inr (entered.0, ground (arith, entered.1), ground (arith, entered.2))
        ]
      ]

  handle-Keeps :
      (local : EndpointId) (opened : Result (Unit {0}) LibError)
      (others : Registry EndpointId → Registry EndpointId) (k : ChatId EndpointId)
      (conn_handle : Option (ChatConnectionHandle EndpointId))
      → Keeps dec others
      → Keeps dec (λ r. (handle_chat_manager dec is_open local opened others k conn_handle r).0)
  unfolding handle_chat_manager
  handle-Keeps local opened others k conn_handle keeps j i r h =
      elim (Option-cases (get dec k r.chat_managers)) [
        | inl none_yet ↦ elim (Result-cases opened) [
          | inl (u, opens) ↦
              ground (arith, keeps j i r h, enter-keeps local k conn_handle j i (others r))
          | inr (e, refused) ↦ ground (arith, keeps j i r h)
        ]
        | inr (x, found) ↦ ground (arith, inject-get j x conn_handle r)
      ]

  turn-keeps :
      (e : Event EndpointId) (a : AppActor EndpointId) (k : ChatId EndpointId) (i : ℕ)
      → EventKeeps dec e
      → get dec k a.registry.chat_managers ≡ some i
      → get dec k (turn dec is_open e a).0.registry.chat_managers ≡ some i
  unfolding turn handle_actor_request
  turn-keeps cancelled a k i keeps h = h
  turn-keeps channel_closed a k i keeps h = h
  turn-keeps accept_failed a k i keeps h = h
  turn-keeps spawned_runs a k i keeps h =
      ground (arith, deliver-get k a.registry.spawned a.registry)
  turn-keeps (get_chat_manager t remote opened others) a k i keeps h =
      let j : ChatId EndpointId = record { my_id = a.secret_key_public; remote_id = remote } in
      handle-Keeps a.endpoint_id opened others j none keeps k i a.registry h
  turn-keeps (accepted x opened others) a k i keeps h =
      let j : ChatId EndpointId = record { my_id = a.secret_key_public; remote_id = x.remote } in
      handle-Keeps a.endpoint_id opened others j (some x) keeps k i a.registry h

  run-keeps :
      (es : List (Event EndpointId)) (a : AppActor EndpointId) (k : ChatId EndpointId) (i : ℕ)
      → All (EventKeeps dec) es
      → get dec k a.registry.chat_managers ≡ some i
      → get dec k (run dec is_open es a).0.registry.chat_managers ≡ some i
  unfolding run
  run-keeps [] a k i keeps h = h
  run-keeps (e ∷ es) a k i keeps h =
      ground
        (arith, turn-keeps e a k i keeps.0 h, run-keeps es (turn dec is_open e a).0 k i keeps.1)

  -- Once the actor has returned a manager for a chat, it returns the same one whenever the chat is
  -- asked for again, whatever the actor does in between and whether or not the chat could be opened
  -- again; provided only that nothing else takes managers out of the registry.
  pub same_manager :
      (local : EndpointId) (opened reopened : Result (Unit {0}) LibError)
      (others later : Registry EndpointId → Registry EndpointId) (k : ChatId EndpointId)
      (first second : Option (ChatConnectionHandle EndpointId)) (a : AppActor EndpointId)
      (es : List (Event EndpointId)) (i : ℕ)
      → All (EventKeeps dec) es
      → (handle_chat_manager dec is_open local opened others k first a.registry).1 ≡ ok i
      → (handle_chat_manager dec is_open local reopened later k second
          (run dec is_open es (record a {
            registry = (handle_chat_manager dec is_open local opened others k first a.registry).0;
          })).0.registry).1
        ≡ ok i
  unfolding handle_chat_manager
  same_manager local opened reopened others later k first second a es i keeps h =
      let r = (handle_chat_manager dec is_open local opened others k first a.registry).0 in
      elim (handle_chat_manager_lem local opened others k first a.registry) [
        | inl (_, (e, _, failed)) ↦ ground arith
        | inr (j, returned, found) ↦
            ground (arith, run-keeps es (record a { registry = r }) k j keeps found)
      ]
