-- ===== src/Manager/Loop.antt =====
-- The `select!` loop of the actor in src/manager.rs, and the task around it.
pub mod Shutdown
pub mod Documents
pub mod Reports
mod Examples
use tryst_core_portfolio.Prelude.{
  ℕ, Bool, true, false, List, [], ◌∷◌, Option, none, some, if◌then◌else◌,
}
use tryst_core_portfolio.Chat.Message.{ProtoMessage}
use tryst_core_portfolio.Chat.Connection.{ChatConnectionState, EndpointOrder, close}
use tryst_core_portfolio.Chat.Connection.Tasks.{Session, Event, step, reconnect, receive}
use tryst_core_portfolio.Manager.Repository.{Repository}
use tryst_core_portfolio.Manager.Actor.{
  Manager, InMessage, Flow, continues, returns_ok, returns_err, process_sync_status, notify,
  send_generated, handle_connection_state_change, handle_subscription, handle_outgoing_message,
  handle_incomming_message,
}

module _ (EndpointId : Type 0) (repo : Repository) where
  -- The branch that `select!` takes. `background` is a step of the connection's own tasks between
  -- two turns. `incoming` says what each channel of the connection delivers.
  pub data Branch : Type 0 where
    cancelled ticks sync_status_changes conn_state_changes : Branch
    subscribes : Option (ℕ × ℕ) → Branch
    outgoing : Option (InMessage EndpointId repo) → Branch
    incoming : (ℕ → Option ProtoMessage) → Branch
    background : Event EndpointId → Branch

  abbrev is_connected : ChatConnectionState → Bool
  is_connected (ChatConnectionState.connected _) = true
  is_connected _ = false

  -- `self.conn.close()`.
  pub close_conn : Manager EndpointId repo → Manager EndpointId repo
  close_conn m = record m { session = record m.session { conn = close m.session.conn } }

  tick : (ℕ → Bool) → ChatConnectionState → Manager EndpointId repo → Manager EndpointId repo
  unfolding reconnect
  tick is_open (ChatConnectionState.connected _) m = send_generated EndpointId repo is_open m
  tick is_open ChatConnectionState.disconnected m = record m { session = reconnect m.session }
  tick is_open ChatConnectionState.reconnecting m = m

  unfoldable pub take_incoming :
      (ℕ → Bool)
      → Session EndpointId × Option ProtoMessage
      → Manager EndpointId repo
      → Manager EndpointId repo
  take_incoming is_open (s, none) m = record m { session = s }
  take_incoming is_open (s, some msg) m =
      handle_incomming_message EndpointId repo is_open msg (record m { session = s })

  -- One turn. The branch of `incoming` is guarded: it is taken only while connected.
  unfoldable pub turn :
      ⦃order : EndpointOrder EndpointId⦄
      → (ℕ → Bool)
      → Branch
      → Manager EndpointId repo
      → Manager EndpointId repo × Flow
  unfolding close_conn tick take_incoming
  turn is_open cancelled m = (close_conn m, returns_ok)
  turn is_open ticks m = (tick is_open m.session.conn.published m, continues)
  turn is_open sync_status_changes m =
      (notify EndpointId repo (λ r. process_sync_status r (repo.sync_status m.doc)) m, continues)
  turn is_open conn_state_changes m =
      (handle_connection_state_change EndpointId repo is_open m.session.conn.published m, continues)
  turn is_open (subscribes msg) m = handle_subscription EndpointId repo msg m
  turn is_open (outgoing msg) m = handle_outgoing_message EndpointId repo is_open msg m
  turn is_open (incoming recv) m = (
    if is_connected m.session.conn.published
        then take_incoming is_open (receive recv m.session) m
        else m,
    continues,
  )
  turn is_open (background e) m = (record m { session = step e m.session }, continues)

  pub turns :
      ⦃order : EndpointOrder EndpointId⦄
      → (ℕ → Bool)
      → List Branch
      → Manager EndpointId repo
      → Manager EndpointId repo × Flow
  turns is_open [] m = (m, continues)
  turns is_open (b ∷ bs) m =
      let rest = turns is_open bs (turn is_open b m).0 in
      elim (turn is_open b m).1 [
        | continues ↦ rest
        | returns_ok ↦ ((turn is_open b m).0, returns_ok)
        | returns_err ↦ ((turn is_open b m).0, returns_err)
      ]

  -- The actor that `new` makes of a document and a connection.
  abbrev pub new : repo.Doc → Session EndpointId → Manager EndpointId repo
  new doc conn = record {
    doc = doc;
    session = conn;
    msg_receiver = none;
    reset_doc_state = false;
    calls = [];
    answers = [];
  }

  -- `run`: the handler of the initial state, and then the loop.
  unfoldable pub run :
      ⦃order : EndpointOrder EndpointId⦄
      → (ℕ → Bool)
      → List Branch
      → Manager EndpointId repo
      → Manager EndpointId repo × Flow
  unfolding turns
  run is_open bs m =
      turns is_open bs
        (handle_connection_state_change EndpointId repo is_open m.session.conn.published m)

  -- The spawned task: when `run` has returned, the connection is closed.
  pub task :
      ⦃order : EndpointOrder EndpointId⦄
      → (ℕ → Bool)
      → List Branch
      → Manager EndpointId repo
      → Manager EndpointId repo × Flow
  unfolding close_conn
  task is_open bs m =
      let (m', flow) = run is_open bs m in
      (
        elim flow [ continues ↦ m' | returns_ok ↦ close_conn m' | returns_err ↦ close_conn m' ],
        flow,
      )
