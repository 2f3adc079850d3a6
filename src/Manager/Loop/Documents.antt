-- ===== src/Manager/Loop/Documents.antt =====
-- The task of src/manager.rs changes its document only by the operations of the repository.
use tryst_core_portfolio.Prelude.{ℕ, Bool, List, [], ◌∷◌, Option, none, some, arith}
use tryst_core_portfolio.Chat.Message.{ProtoMessage}
use tryst_core_portfolio.Chat.Connection.{EndpointOrder}
use tryst_core_portfolio.Chat.Connection.Tasks.{Session, receive}
use tryst_core_portfolio.Manager.Repository.{Repository}
use tryst_core_portfolio.Manager.Actor.{Manager, process_sync_status}
use tryst_core_portfolio.Manager.Actor.Documents.{
  Preserved, Good, change-Good, incoming-Good, outgoing-Good, send_generated-Good, notify-Good,
  subscription-Good,
}
use tryst_core_portfolio.Manager.Loop.{
  Branch, cancelled, ticks, sync_status_changes, conn_state_changes, subscribes, outgoing, incoming,
  background, turn, turns, run, task, close_conn, take_incoming,
}

module _ (EndpointId : Type 0) (repo : Repository) ⦃order : EndpointOrder EndpointId⦄
    (P : repo.Doc → Type 0) (kept : Preserved repo P) where
  abbrev Safe : Manager EndpointId repo → Type 0
  Safe = Good EndpointId repo P kept

  take_incoming-Good :
      (is_open : ℕ → Bool) (got : Session EndpointId × Option ProtoMessage)
      (m : Manager EndpointId repo)
      → Safe m
      → Safe (take_incoming EndpointId repo is_open got m)
  unfolding take_incoming
  take_incoming-Good is_open (s, none) m h = h
  take_incoming-Good is_open (s, some msg) m h =
      incoming-Good EndpointId repo P kept is_open msg (record m { session = s }) h

  turn-Good :
      (is_open : ℕ → Bool) (b : Branch EndpointId repo) (m : Manager EndpointId repo)
      → Safe m
      → Safe (turn EndpointId repo is_open b m).0
  unfolding turn
  turn-Good is_open cancelled m h = h
  turn-Good is_open ticks m h =
      ground (arith, send_generated-Good EndpointId repo P kept is_open m h)
  turn-Good is_open sync_status_changes m h =
      notify-Good EndpointId repo P kept (λ r. process_sync_status r (repo.sync_status m.doc)) m h
  turn-Good is_open conn_state_changes m h =
      change-Good EndpointId repo P kept is_open m.session.conn.published m h
  turn-Good is_open (subscribes msg) m h = subscription-Good EndpointId repo P kept msg m h
  turn-Good is_open (outgoing msg) m h = outgoing-Good EndpointId repo P kept is_open msg m h
  turn-Good is_open (incoming recv) m h =
      ground (arith, take_incoming-Good is_open (receive recv m.session) m h)
  turn-Good is_open (background e) m h = h

  turns-Good :
      (is_open : ℕ → Bool) (bs : List (Branch EndpointId repo)) (m : Manager EndpointId repo)
      → Safe m
      → Safe (turns EndpointId repo is_open bs m).0
  unfolding turns
  turns-Good is_open [] m h = h
  turns-Good is_open (b ∷ bs) m h =
      let t = turn-Good is_open b m h in
      ground (arith, turns-Good is_open bs (turn EndpointId repo is_open b m).0 t)

  -- What the operations of the repository keep, the task keeps.
  pub task-Good :
      (is_open : ℕ → Bool) (bs : List (Branch EndpointId repo)) (m : Manager EndpointId repo)
      → Safe m
      → Safe (task EndpointId repo is_open bs m).0
  unfolding task run close_conn
  task-Good is_open bs m h =
      let started = change-Good EndpointId repo P kept is_open m.session.conn.published m h in
      let t : P (run EndpointId repo is_open bs m).0.doc = turns-Good is_open bs _ started in
      ground (arith, t)
