-- ===== src/Manager/Loop/Shutdown.antt =====
-- How the task of src/manager.rs ends.
use tryst_core_portfolio.Prelude.{ℕ, Bool, List, [], ◌∷◌, ◌≡◌, ◌≢◌, refl, arith, ◌++◌}
use tryst_core_portfolio.Chat.Connection.{
  InternalConnState, ChatConnectionState, EndpointOrder, close,
}
use tryst_core_portfolio.Chat.Connection.Stale.{close_lem, close-shut, held}
use tryst_core_portfolio.Manager.Repository.{Repository}
use tryst_core_portfolio.Manager.Actor.{Manager, continues, returns_ok}
use tryst_core_portfolio.Manager.Loop.{Branch, cancelled, turn, turns, run, task, close_conn}

module _ (EndpointId : Type 0) (repo : Repository) ⦃order : EndpointOrder EndpointId⦄ where
  close_conn_lem :
      (m : Manager EndpointId repo)
      → ((close_conn EndpointId repo m).session.conn.state ≡ InternalConnState.disconnected)
        × ((close_conn EndpointId repo m).session.conn.published ≡ ChatConnectionState.disconnected)
  unfolding close_conn
  close_conn_lem m = ((close_lem m.session.conn).0, (close_lem m.session.conn).1)

  -- However the actor's loop returns, by a cancellation or by an error, its task leaves the
  -- connection disconnected, and the watch channel shows that.
  pub task_closes :
      (is_open : ℕ → Bool) (bs : List (Branch EndpointId repo)) (m : Manager EndpointId repo)
      → (task EndpointId repo is_open bs m).1 ≢ continues
      → ((task EndpointId repo is_open bs m).0.session.conn.state ≡ InternalConnState.disconnected)
        × ((task EndpointId repo is_open bs m).0.session.conn.published
            ≡ ChatConnectionState.disconnected)
  unfolding task
  task_closes is_open bs m h = ground (arith, close_conn_lem (run EndpointId repo is_open bs m).0)

  turn_cancelled :
      (is_open : ℕ → Bool) (m : Manager EndpointId repo)
      → turn EndpointId repo is_open cancelled m ≡ (close_conn EndpointId repo m, returns_ok)
  unfolding turn
  turn_cancelled is_open m = refl

  turns_cancelled :
      (is_open : ℕ → Bool) (before after : List (Branch EndpointId repo))
      (m : Manager EndpointId repo)
      → (turns EndpointId repo is_open before m).1 ≡ continues
      → turns EndpointId repo is_open (before ++ cancelled ∷ after) m
        ≡ (close_conn EndpointId repo (turns EndpointId repo is_open before m).0, returns_ok)
  unfolding turns
  turns_cancelled is_open [] after m c = ground (arith, turn_cancelled is_open m)
  turns_cancelled is_open (b ∷ before) after m c =
      ground (arith, turns_cancelled is_open before after (turn EndpointId repo is_open b m).0)

  run_cancelled :
      (is_open : ℕ → Bool) (before after : List (Branch EndpointId repo))
      (m : Manager EndpointId repo)
      → (run EndpointId repo is_open before m).1 ≡ continues
      → run EndpointId repo is_open (before ++ cancelled ∷ after) m
        ≡ (close_conn EndpointId repo (run EndpointId repo is_open before m).0, returns_ok)
  unfolding run
  run_cancelled is_open before after m c = turns_cancelled is_open before after _ c

  task_returned :
      (is_open : ℕ → Bool) (bs : List (Branch EndpointId repo)) (m m' : Manager EndpointId repo)
      → run EndpointId repo is_open bs m ≡ (m', returns_ok)
      → task EndpointId repo is_open bs m ≡ (close_conn EndpointId repo m', returns_ok)
  unfolding task
  task_returned is_open bs m m' e = ground arith

  -- What the end of the task `r` has left of the actor `m`: the connection is disconnected, the
  -- watch channel shows that, the handle that was held is shut down, and nothing else was sent,
  -- answered or changed in the document.
  pub record Closes (m r : Manager EndpointId repo) : Type 0 where
    pub closed : r.session.conn.state ≡ InternalConnState.disconnected
    pub shown : r.session.conn.published ≡ ChatConnectionState.disconnected
    pub shut : r.session.conn.cancelled ≡ held m.session.conn.state ++ m.session.conn.cancelled
    pub same_doc : r.doc ≡ m.doc
    pub same_sent : r.session.sent ≡ m.session.sent
    pub same_answers : r.answers ≡ m.answers

  close_twice :
      (m : Manager EndpointId repo)
      → Closes m (close_conn EndpointId repo (close_conn EndpointId repo m))
  unfolding close_conn
  close_twice m = record {
    closed = (close_lem (close m.session.conn)).0;
    shown = (close_lem (close m.session.conn)).1;
    shut = close-shut m.session.conn;
    same_doc = refl;
    same_sent = refl;
    same_answers = refl;
  }

  -- If the loop is still running after some turns, a cancellation ends the task with `Ok`, whatever
  -- branches would have come later. The connection is then disconnected, also in the watch channel,
  -- and the handle that it held is shut down; what was sent and answered, and the document, are as
  -- the turns before have left them.
  pub cancellation_ends :
      (is_open : ℕ → Bool) (before after : List (Branch EndpointId repo))
      (m : Manager EndpointId repo)
      → (run EndpointId repo is_open before m).1 ≡ continues
      → ((task EndpointId repo is_open (before ++ cancelled ∷ after) m).1 ≡ returns_ok)
        × Closes
            (run EndpointId repo is_open before m).0
            (task EndpointId repo is_open (before ++ cancelled ∷ after) m).0
  cancellation_ends is_open before after m c =
      rw
        (task_returned is_open (before ++ cancelled ∷ after) m _
          (run_cancelled is_open before after m c))
        (refl, close_twice (run EndpointId repo is_open before m).0)
