-- ===== src/Chat/Connection/Tasks/Invariant.antt =====
-- What holds of a session of src/protocols/chat.rs between any two steps of its tasks.
use tryst_core_portfolio.Prelude.{◌<◌, ◌≡◌, ◌≢◌, List, [], ◌∷◌, arith}
use tryst_core_portfolio.Chat.Connection.{
  ChatConnectionHandle, InternalConnState, EndpointOrder, public_state, new, new_connected,
}
use tryst_core_portfolio.Chat.Connection.Tasks.{
  Session, DialOutcome, Event, ends_reconnect, step, schedule, session, reconnect,
}

module _ {EndpointId : Type 0} where
  pub record Inv (s : Session EndpointId) : Type 0 where
    -- The watch channel shows the state that the lock guards.
    pub mirrored : s.conn.published ≡ public_state s.conn.state
    -- `Reconnecting` is never left without a task that will end it.
    pub attended : s.conn.state ≡ InternalConnState.reconnecting → 0 < s.dialing

  step-Inv :
      ⦃order : EndpointOrder EndpointId⦄ (e : Event EndpointId) (s : Session EndpointId)
      → Inv s
      → Inv (step e s)
  unfolding step
  step-Inv e s v = ground arith

  schedule-Inv :
      ⦃order : EndpointOrder EndpointId⦄ (es : List (Event EndpointId)) (s : Session EndpointId)
      → Inv s
      → Inv (schedule es s)
  unfolding schedule
  schedule-Inv [] s v = v
  schedule-Inv (e ∷ es) s v = schedule-Inv es (step e s) (step-Inv e s v)

  since_new-Inv :
      ⦃order : EndpointOrder EndpointId⦄ (local remote : EndpointId) (es : List (Event EndpointId))
      → Inv (schedule es (reconnect (session (new local remote))))
  unfolding new session reconnect
  since_new-Inv local remote es = schedule-Inv es _ (ground arith)

  -- From a connection that `new` makes and that has spawned its reconnect task, or one that
  -- `new_connected` makes, every sequence of steps of its tasks and callers leads to a session whose
  -- watch channel shows the guarded state, and which is `Reconnecting` only while a dial is pending.
  pub schedule_from_new-Inv :
      ⦃order : EndpointOrder EndpointId⦄ (local remote : EndpointId)
      (h : ChatConnectionHandle EndpointId) (es : List (Event EndpointId))
      → Inv (schedule es (reconnect (session (new local remote))))
        × Inv (schedule es (session (new_connected local h)))
  unfolding new new_connected session reconnect
  schedule_from_new-Inv local remote h es =
      (since_new-Inv local remote es, schedule-Inv es _ (ground arith))

  leaves :
      ⦃order : EndpointOrder EndpointId⦄ (o : DialOutcome EndpointId) (s : Session EndpointId)
      → 0 < s.dialing
      → (step (ends_reconnect o) s).conn.state ≢ InternalConnState.reconnecting
  unfolding step
  leaves o s d = ground arith

  -- A session that started as `new` makes it, after some steps.
  abbrev pub since_new :
      ⦃order : EndpointOrder EndpointId⦄
      → EndpointId
      → EndpointId
      → List (Event EndpointId)
      → Session EndpointId
  since_new local remote es = schedule es (reconnect (session (new local remote)))

  -- After every sequence of steps from a new connection, if the state is `Reconnecting` then a dial
  -- is pending, and whatever the outcome of the dial is, its end leaves `Reconnecting`.
  pub reconnecting_ends :
      ⦃order : EndpointOrder EndpointId⦄ (local remote : EndpointId) (es : List (Event EndpointId))
      (o : DialOutcome EndpointId)
      → (since_new local remote es).conn.state ≡ InternalConnState.reconnecting
      → (0 < (since_new local remote es).dialing)
        × ((step (ends_reconnect o) (since_new local remote es)).conn.state
            ≢ InternalConnState.reconnecting)
  reconnecting_ends local remote es o r =
      let d = (since_new-Inv local remote es).attended r in
      (d, leaves o (since_new local remote es) d)
