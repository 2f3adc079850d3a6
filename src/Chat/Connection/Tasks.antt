-- ===== src/Chat/Connection/Tasks.antt =====
-- The asynchronous methods of `ChatConnection` in src/protocols/chat.rs: `send_message`, `receive`
-- and `reconnect`, with the tasks that they spawn.
--
-- A method that awaits is cut at its awaits, so that other steps may come between: it reads the
-- guard, waits for the channel, and goes on with what it read. A session is the connection, the
-- reconnect tasks that were spawned and have not run, those that have set `Reconnecting` and await
-- the dial, and the ids of the disconnect tasks that were spawned. `schedule` runs any sequence of
-- such steps.
pub mod Invariant
pub mod Leases
pub mod Recovery
use tryst_core_portfolio.Prelude.{
  ℕ, zero, suc, ◌+◌, ◌-◌, Bool, true, false, List, [], ◌∷◌, Option, none, some, ◌==◌, if◌then◌else◌,
}
use tryst_core_portfolio.Chat.Message.{ProtoMessage}
use tryst_core_portfolio.Chat.Connection.{
  ChatConnectionHandle, InternalConnState, ChatConnection, EndpointOrder, update_handle, close,
  set_state_disconnected_if_id_matches, set_state_if_disconnected, set_state_if_reconnecting,
}

pub record Session (EndpointId : Type 0) : Type 0 where
  pub conn : ChatConnection EndpointId
  pub starting : ℕ
  pub dialing : ℕ
  pub disconnects : List ℕ
  pub sent : List (ℕ × ProtoMessage)

-- What a reconnect task meets: the request channel is closed, or the dial answers with a handle
-- (and the UUID that `update_handle` would draw), with an error, or its sender is dropped.
pub data DialOutcome (EndpointId : Type 0) : Type 0 where
  request_closed : DialOutcome EndpointId
  dialed : ChatConnectionHandle EndpointId → ℕ → DialOutcome EndpointId
  dial_failed : DialOutcome EndpointId
  responder_dropped : DialOutcome EndpointId

-- One occurrence of an id less in the list of spawned disconnects.
abbrev pub remove_one : ℕ → List ℕ → List ℕ
remove_one i [] = []
remove_one i (x ∷ xs) = if x == i then xs else x ∷ remove_one i xs

abbrev is_in : ℕ → List ℕ → Bool
is_in i [] = false
is_in i (x ∷ xs) = if x == i then true else is_in i xs

-- A step of some task or some caller.
pub data Event (A : Type 0) : Type 0 where
  calls_reconnect : Event A
  starts_reconnect : Event A
  ends_reconnect : DialOutcome A → Event A
  finds_closed : ℕ → Event A
  runs_disconnect : ℕ → Event A
  accepts : ChatConnectionHandle A → ℕ → Event A
  closes : Event A

module _ {EndpointId : Type 0} where
  -- The channels and the id that `send_message` and `receive` copy out of the guard.
  abbrev pub handle_of : InternalConnState EndpointId → Option (ChatConnectionHandle EndpointId)
  handle_of (InternalConnState.connected h) = some h
  handle_of _ = none

  -- The end of `send_message`: the message went out on the channel, or the channel was closed and
  -- a task is spawned that disconnects the handle with the id that was read.
  unfoldable pub send_on :
      Bool
      → Option (ChatConnectionHandle EndpointId)
      → ProtoMessage
      → Session EndpointId
      → Session EndpointId
  send_on usable none msg s = s
  send_on true (some h) msg s = record s { sent = (h.tx, msg) ∷ s.sent }
  send_on false (some h) msg s = record s { disconnects = h.id ∷ s.disconnects }

  -- `send_message`, with no step between the read of the guard and the send.
  unfoldable pub send_message : (ℕ → Bool) → ProtoMessage → Session EndpointId → Session EndpointId
  unfolding send_on
  send_message is_open msg s =
      send_on (elim (handle_of s.conn.state) [ none ↦ false | some h ↦ is_open h.tx ])
        (handle_of s.conn.state) msg s

  -- The end of `receive`, for the handle that was read and what its channel delivered.
  unfoldable pub receive_on :
      Option (ChatConnectionHandle EndpointId)
      → Option ProtoMessage
      → Session EndpointId
      → Session EndpointId × Option ProtoMessage
  receive_on none delivered s = (s, none)
  receive_on (some h) (some msg) s = (s, some msg)
  receive_on (some h) none s = (record s { disconnects = h.id ∷ s.disconnects }, none)

  -- `receive`; `recv` is what each channel delivers, `none` where it is closed.
  unfoldable pub receive :
      (ℕ → Option ProtoMessage) → Session EndpointId → Session EndpointId × Option ProtoMessage
  unfolding receive_on
  receive recv s =
      receive_on (handle_of s.conn.state)
        (elim (handle_of s.conn.state) [ none ↦ none | some h ↦ recv h.rx ]) s

  -- `reconnect`: the task is spawned.
  unfoldable pub reconnect : Session EndpointId → Session EndpointId
  reconnect s = record s { starting = suc s.starting }

  -- The task up to its request: it goes on only if the connection was disconnected.
  start_reconnect : Session EndpointId → Session EndpointId
  unfolding set_state_if_disconnected
  start_reconnect s =
      let (c, set) = set_state_if_disconnected InternalConnState.reconnecting s.conn in
      record s {
        conn = c;
        starting = s.starting - 1;
        dialing = if set then suc s.dialing else s.dialing;
      }

  fall_back : ChatConnection EndpointId → ChatConnection EndpointId
  unfolding set_state_if_reconnecting
  fall_back c = (set_state_if_reconnecting InternalConnState.disconnected c).0

  -- The task's last step, on each outcome.
  dial_result :
      ⦃order : EndpointOrder EndpointId⦄
      → DialOutcome EndpointId
      → ChatConnection EndpointId
      → ChatConnection EndpointId
  unfolding fall_back update_handle
  dial_result request_closed c = fall_back c
  dial_result (dialed h new_id) c = update_handle h new_id c
  dial_result dial_failed c = fall_back c
  dial_result responder_dropped c = fall_back c

  -- A step, where its task is there to take it.
  unfoldable pub step :
      ⦃order : EndpointOrder EndpointId⦄
      → Event EndpointId
      → Session EndpointId
      → Session EndpointId
  unfolding reconnect start_reconnect dial_result set_state_disconnected_if_id_matches close
  step calls_reconnect s = reconnect s
  step starts_reconnect s = if s.starting == 0 then s else start_reconnect s
  step (ends_reconnect outcome) s =
      if s.dialing == 0
      then s
      else record s { conn = dial_result outcome s.conn; dialing = s.dialing - 1 }
  step (finds_closed id) s = record s { disconnects = id ∷ s.disconnects }
  step (runs_disconnect id) s =
      if is_in id s.disconnects
      then record s {
        conn = set_state_disconnected_if_id_matches id s.conn;
        disconnects = remove_one id s.disconnects;
      }
      else s
  step (accepts h new_id) s = record s { conn = update_handle h new_id s.conn }
  step closes s = record s { conn = close s.conn }

  unfoldable pub schedule :
      ⦃order : EndpointOrder EndpointId⦄
      → List (Event EndpointId)
      → Session EndpointId
      → Session EndpointId
  schedule [] s = s
  schedule (e ∷ es) s = schedule es (step e s)

  unfoldable pub session : ChatConnection EndpointId → Session EndpointId
  session c = record { conn = c; starting = 0; dialing = 0; disconnects = []; sent = [] }
