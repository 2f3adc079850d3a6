-- ===== src/App.antt =====
-- The application of src/app.rs: the registry of the chat managers, the actor that owns it, and the
-- calls that reach the actor.
--
-- A chat manager is shared by reference, so the registry's row holds its identity, the connection
-- that it was created with and the handles that `pass_accepted_conn_handle` has queued for it;
-- `is_open` says whether a manager still receives. What src/persistence.rs answers when the chat is
-- opened, and what happens to the registry while the actor waits for it, are arguments.
pub mod Managers
pub mod Requests
pub mod Names
pub mod Keys
pub mod Calls
pub mod Startup
mod Examples
use tryst_core_portfolio.Prelude.{
  ℕ, suc, Bool, true, false, List, [], ◌∷◌, ◌++◌, Option, none, some, if◌then◌else◌, ◌&&◌, ◌==◌,
  Result, ok, err, map_err, ◌>>=◌, ite,
}
use Prim.Native.String.{String, ◌++◌ as string_append}
use tryst_core_portfolio.Failure.{LibError, GossipError, from_lib_error, invalid_peer_id, internal}
use tryst_core_portfolio.Chat.Connection.{ChatConnection, ChatConnectionHandle, new, new_connected}

pub record ChatId (EndpointId : Type 0) : Type 0 where
  pub my_id : EndpointId
  pub remote_id : EndpointId

pub record ChatManager (EndpointId : Type 0) : Type 0 where
  pub id : ℕ
  pub chat_id : ChatId EndpointId
  pub conn : ChatConnection EndpointId
  pub dials : Bool
  pub passed : List (ChatConnectionHandle EndpointId)

-- `chat_managers`, with the source of identities, and the tasks that are to pass a handle.
pub record Registry (EndpointId : Type 0) : Type 0 where
  pub chat_managers : List (ChatManager EndpointId)
  pub next_id : ℕ
  pub spawned : List (ℕ × ChatConnectionHandle EndpointId)

-- `db_pool.close()` of `run` and `shutdown` of the router in `cleanup`.
pub data Closing : Type 0 where
  closes_pool shuts_router : Closing

-- What the actor owns besides: its keys, what it has answered on each `respond_to`, and what it has
-- closed, oldest first.
pub record AppActor (EndpointId : Type 0) : Type 0 where
  pub secret_key_public : EndpointId
  pub endpoint_id : EndpointId
  pub registry : Registry EndpointId
  pub answers : List (ℕ × Result ℕ LibError)
  pub shut : List Closing

module _ {EndpointId : Type 0} (dec : Discrete EndpointId) where
  abbrev pub same_chat : ChatId EndpointId → ChatId EndpointId → Bool
  same_chat a b = ite (dec a.my_id b.my_id) (ite (dec a.remote_id b.remote_id) true false) false

  -- `chat_managers.get(&chat_id)`.
  unfoldable pub get : ChatId EndpointId → List (ChatManager EndpointId) → Option ℕ
  get k [] = none
  get k (m ∷ ms) = if same_chat m.chat_id k then some m.id else get k ms

-- `pass_accepted_conn_handle` of the manager `i`: a manager that receives no more drops the handle.
unfoldable pub pass_accepted_conn_handle :
    {EndpointId : Type 0} (is_open : ℕ → Bool)
    → ℕ
    → ChatConnectionHandle EndpointId
    → List (ChatManager EndpointId)
    → List (ChatManager EndpointId)
pass_accepted_conn_handle is_open i h [] = []
pass_accepted_conn_handle is_open i h (m ∷ ms) =
    let rest = pass_accepted_conn_handle is_open i h ms in
    if m.id == i
    then (if is_open i then record m { passed = m.passed ++ h ∷ [] } else m) ∷ rest
    else m ∷ rest

-- `ChatManager::new` on the connection that `conn_handle` makes; `new` starts to dial.
unfoldable pub new_manager :
    {EndpointId : Type 0} (local : EndpointId)
    → ℕ
    → ChatId EndpointId
    → Option (ChatConnectionHandle EndpointId)
    → ChatManager EndpointId
new_manager local i k (some h) = record {
  id = i;
  chat_id = k;
  conn = new_connected local h;
  dials = false;
  passed = [];
}
new_manager local i k none = record {
  id = i;
  chat_id = k;
  conn = new local k.remote_id;
  dials = true;
  passed = [];
}

module _ {EndpointId : Type 0} (dec : Discrete EndpointId) (is_open : ℕ → Bool) where
  abbrev pub inject :
      ℕ → Option (ChatConnectionHandle EndpointId) → Registry EndpointId → Registry EndpointId
  inject i none r = r
  inject i (some h) r = record r {
    chat_managers = pass_accepted_conn_handle is_open i h r.chat_managers;
  }

  abbrev pub inject_later :
      ℕ → Option (ChatConnectionHandle EndpointId) → Registry EndpointId → Registry EndpointId
  inject_later i none r = r
  inject_later i (some h) r = record r { spawned = r.spawned ++ (i, h) ∷ [] }

  -- The `entry` of `handle_chat_manager`: the manager of the race's winner, or a new one.
  unfoldable pub enter :
      EndpointId
      → ChatId EndpointId
      → Option (ChatConnectionHandle EndpointId)
      → Registry EndpointId
      → Registry EndpointId × Result ℕ LibError
  unfolding get new_manager
  enter local k conn_handle r = elim (get dec k r.chat_managers) [
    | some i ↦ (inject_later i conn_handle r, ok i)
    | none ↦ (
      record r {
        chat_managers = r.chat_managers ++ new_manager local r.next_id k conn_handle ∷ [];
        next_id = suc r.next_id;
      },
      ok r.next_id,
    )
  ]

  -- `handle_chat_manager`: `opened` is the answer of `ChatRepository::new`, and `others` what
  -- happens to the registry until it comes.
  unfoldable pub handle_chat_manager :
      EndpointId
      → Result (Unit {0}) LibError
      → (Registry EndpointId → Registry EndpointId)
      → ChatId EndpointId
      → Option (ChatConnectionHandle EndpointId)
      → Registry EndpointId
      → Registry EndpointId × Result ℕ LibError
  unfolding get pass_accepted_conn_handle enter
  handle_chat_manager local opened others k conn_handle r = elim (get dec k r.chat_managers) [
    | some i ↦ (inject i conn_handle r, ok i)
    | none ↦ elim opened [ err e ↦ (others r, err e) | ok _ ↦ enter local k conn_handle (others r) ]
  ]

-- What `select!` delivers to the actor: the cancellation; a request with its `respond_to`, or that
-- the channel is closed; an accepted connection or an error. `spawned_runs` is a turn of the tasks
-- that the actor has spawned.
pub data Event (EndpointId : Type 0) : Type 0 where
  cancelled channel_closed spawned_runs accept_failed : Event EndpointId
  get_chat_manager :
      ℕ
      → EndpointId
      → Result (Unit {0}) LibError
      → (Registry EndpointId → Registry EndpointId)
      → Event EndpointId
  accepted :
      ChatConnectionHandle EndpointId
      → Result (Unit {0}) LibError
      → (Registry EndpointId → Registry EndpointId)
      → Event EndpointId

pub data Ending : Type 0 where
  waits shut_down exits_with_error : Ending

abbrev goes_on : Ending → Bool
goes_on waits = true
goes_on shut_down = false
goes_on exits_with_error = false

module _ {EndpointId : Type 0} (dec : Discrete EndpointId) (is_open : ℕ → Bool) where
  -- The next spawned task passes its handle.
  abbrev pub deliver :
      List (ℕ × ChatConnectionHandle EndpointId) → Registry EndpointId → Registry EndpointId
  deliver [] r = r
  deliver ((i, h) ∷ rest) r = record r {
    chat_managers = pass_accepted_conn_handle is_open i h r.chat_managers;
    spawned = rest;
  }

  -- `handle_actor_request`.
  unfoldable pub handle_actor_request :
      ℕ
      → EndpointId
      → Result (Unit {0}) LibError
      → (Registry EndpointId → Registry EndpointId)
      → AppActor EndpointId
      → AppActor EndpointId
  unfolding handle_chat_manager
  handle_actor_request respond_to remote opened others a =
      let k : ChatId EndpointId = record { my_id = a.secret_key_public; remote_id = remote } in
      let (r, result) =
        handle_chat_manager dec is_open a.endpoint_id opened others k none a.registry in
      record a { registry = r; answers = a.answers ++ (respond_to, result) ∷ [] }

  -- One turn of the loop of `run`.
  unfoldable pub turn : Event EndpointId → AppActor EndpointId → AppActor EndpointId × Ending
  unfolding handle_actor_request
  turn cancelled a = (record a { shut = a.shut ++ closes_pool ∷ [] }, shut_down)
  turn channel_closed a = (a, exits_with_error)
  turn spawned_runs a = (record a { registry = deliver a.registry.spawned a.registry }, waits)
  turn accept_failed a = (a, waits)
  turn (get_chat_manager respond_to remote opened others) a =
      (handle_actor_request respond_to remote opened others a, waits)
  turn (accepted h opened others) a =
      let k : ChatId EndpointId = record { my_id = a.secret_key_public; remote_id = h.remote } in
      (
        record a {
          registry =
              (handle_chat_manager dec is_open a.endpoint_id opened others k (some h) a.registry).0;
        },
        waits,
      )

  -- `run`, on the events that come.
  unfoldable pub run : List (Event EndpointId) → AppActor EndpointId → AppActor EndpointId × Ending
  unfolding turn
  run [] a = (a, waits)
  run (e ∷ es) a = let rest = run es (turn e a).0 in if goes_on (turn e a).1 then rest else turn e a

-- `Application::chat_manager`: the peer's id is parsed; the request is sent, unless the actor's
-- channel is closed; the answer is awaited, unless the actor goes away.
unfoldable pub chat_manager :
    {EndpointId : Type 0} (parsed : Result EndpointId String)
    → (sent : Result (Unit {0}) String) → (answer : EndpointId → Option (Result ℕ LibError))
    → Result ℕ GossipError
unfolding from_lib_error
chat_manager parsed sent answer = do
  remote ← map_err (λ e. from_lib_error (invalid_peer_id e)) parsed
  _ ←
      map_err
        (λ e.
          internal (string_append "Failed to send GetChatManager message to AppActor. Error: " e))
        sent
  elim (answer remote) [
    | none ↦ err (internal "Failed to receive ChatManager from AppActor. Channel is closed.")
    | some result ↦ map_err from_lib_error result
  ]
