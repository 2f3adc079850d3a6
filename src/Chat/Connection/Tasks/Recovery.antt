-- ===== src/Chat/Connection/Tasks/Recovery.antt =====
-- How a session of src/protocols/chat.rs gets over a channel that closed, and what a `close` misses.
use tryst_core_portfolio.Prelude.{
  Bool, length, ◌≤◌, ℕ, suc, ◌<◌, ◌≡◌, ◌⊎◌, inl, inr, true, false, List, [], ◌∷◌, arith, Option,
  some, none, In, Option-cases,
}
use tryst_core_portfolio.Chat.Message.{ProtoMessage}
use tryst_core_portfolio.Chat.Connection.{ChatConnectionHandle, InternalConnState, EndpointOrder}
use tryst_core_portfolio.Chat.Connection.Tasks.{
  Session, Event, dialed, ends_reconnect, closes, calls_reconnect, starts_reconnect,
  runs_disconnect, step, schedule, send_message, receive, handle_of, reconnect, start_reconnect,
}

module _ {EndpointId : Type 0} ⦃order : EndpointOrder EndpointId⦄ where
  -- A `close` does not reach a dial that is pending: if the dial succeeds afterwards, the closed
  -- connection is connected again, to the handle that the dial brought.
  pub dial_reopens_closed :
      (s : Session EndpointId) (h : ChatConnectionHandle EndpointId) (i : ℕ)
      → 0 < s.dialing
      → (step (ends_reconnect (dialed h i)) (step closes s)).conn.state
        ≡ InternalConnState.connected h
  unfolding step
  dial_reopens_closed s h i d = ground arith

  -- The steps that the source takes after a channel was found closed: the spawned disconnect, and
  -- the reconnect of the next interval up to its dial request.
  abbrev pub recovery : ℕ → List (Event EndpointId)
  recovery id = runs_disconnect id ∷ calls_reconnect ∷ starts_reconnect ∷ []

  -- A session that is connected to `h` and that finds the channel of `h` closed, by a send or by a
  -- receive, has shut `h` down after its recovery steps and is `Reconnecting` with one more dial
  -- pending; the message that could not be sent is not recorded as sent, and nothing was received.
  pub closed_channel_redials :
      (s : Session EndpointId) (h : ChatConnectionHandle EndpointId) (msg : ProtoMessage)
      → s.conn.state ≡ InternalConnState.connected h
      → ((schedule (recovery h.id) (send_message (λ _. false) msg s)).conn.state
          ≡ InternalConnState.reconnecting)
        × ((schedule (recovery h.id) (send_message (λ _. false) msg s)).dialing ≡ suc s.dialing)
        × In h.cancel_token
            (schedule (recovery h.id) (send_message (λ _. false) msg s)).conn.cancelled
        × ((send_message (λ _. false) msg s).sent ≡ s.sent)
        × (receive (λ _. none) s ≡ (send_message (λ _. false) msg s, none))
  unfolding schedule step send_message receive
  closed_channel_redials s h msg e =
      (ground arith, ground arith, ground arith, ground arith, ground arith)

  -- While a connection is not connected, a message is dropped and nothing is received: both calls
  -- leave the session as it is. While it is connected and its channels work, the message goes out on
  -- the channel of the current handle, and what that handle's channel delivers is returned.
  send_and_receive_lem :
      (s : Session EndpointId) (msg : ProtoMessage) (recv : ℕ → Option ProtoMessage)
      → ((handle_of s.conn.state ≡ none)
          × (send_message (λ _. true) msg s ≡ s)
          × (receive recv s ≡ (s, none)))
        ⊎ ((h : ChatConnectionHandle EndpointId) × (handle_of s.conn.state ≡ some h)
            × (send_message (λ _. true) msg s ≡ record s { sent = (h.tx, msg) ∷ s.sent })
            × ((receive recv s).1 ≡ recv h.rx))
  unfolding send_message receive
  send_and_receive_lem s msg recv = elim (Option-cases (handle_of s.conn.state)) [
    | inl e ↦ inl (e, rw (e, send_message), rw (e, receive))
    | inr (h, e) ↦ inr (h, e, ground arith, ground arith)
  ]

module _ {EndpointId : Type 0} where
  -- The steps of the tasks send nothing.
  pub sent-step :
      ⦃order : EndpointOrder EndpointId⦄ (e : Event EndpointId) (s : Session EndpointId)
      → (step e s).sent ≡ s.sent
  unfolding step reconnect start_reconnect
  sent-step e s = ground arith

  -- A send records at most one message.
  pub sent-send_message-le :
      (is_open : ℕ → Bool) (msg : ProtoMessage) (s : Session EndpointId)
      → length (send_message is_open msg s).sent ≤ suc (length s.sent)
  unfolding send_message
  sent-send_message-le is_open msg s = ground arith
