-- ===== src/Chat/Connection/Examples.antt =====
-- The theorems of the connection at concrete inputs, and runs of its methods.
use tryst_core_portfolio.Prelude.{
  ℕ, ◌<◌, ◌≡◌, ◌≢◌, refl, ◌⊎◌, true, false, List, [], ◌∷◌, arith, In, some, none,
}
use tryst_core_portfolio.Chat.Message.{sync}
use tryst_core_portfolio.Chat.Connection.{
  ChatConnectionHandle, InternalConnState, ChatConnection, ConnOrigin, accept, dial, new,
  new_connected, update_handle, set_state_disconnected_if_id_matches,
}
use tryst_core_portfolio.Chat.Connection.Numbers.{number_order}
use tryst_core_portfolio.Chat.Connection.Tasks.{
  Session, Event, dialed, dial_failed, ends_reconnect, starts_reconnect, accepts, closes, step,
  schedule, session, reconnect, send_message, receive,
}
use tryst_core_portfolio.Chat.Connection.Tasks.Invariant.{
  Inv, schedule_from_new-Inv, reconnecting_ends, since_new,
}
use tryst_core_portfolio.Chat.Connection.Tasks.Leases.{one_open_handle, handed, current_token}
use tryst_core_portfolio.Chat.Connection.Tasks.Recovery.{
  dial_reopens_closed, closed_channel_redials, recovery,
}
use tryst_core_portfolio.Chat.Connection.Glare.{transport, arrive, Idle, Crossing, glare_agree}
use tryst_core_portfolio.Chat.Connection.Stale.{late_disconnect}

abbrev handle : ConnOrigin → ℕ → ℕ → ℕ → ChatConnectionHandle ℕ
handle origin remote connection token = record {
  id = token;
  origin = origin;
  remote = remote;
  connection = connection;
  tx = token;
  rx = token;
  cancel_token = token;
}

-- Peer 1 dials peer 2, which accepts meanwhile; then the kept connection breaks.
abbrev story : List (Event ℕ)
story =
    starts_reconnect
    ∷ accepts (handle accept 2 20 8) 91
    ∷ ends_reconnect (dialed (handle dial 2 10 7) 92)
    ∷ []

-- Peer 1 is the smaller one, so its dial replaces the accepted handle.
story_lem :
    ((since_new 1 2 story).conn.state ≡ InternalConnState.connected (handle dial 2 10 7))
    × ((since_new 1 2 story).conn.cancelled ≡ 8 ∷ [])
unfolding schedule step session reconnect new
story_lem = (refl, refl)

schedule_from_new-Inv_example :
    Inv (schedule story (reconnect (session (new 1 2))))
    × Inv (schedule story (session (new_connected 1 (handle dial 2 10 7))))
schedule_from_new-Inv_example = schedule_from_new-Inv 1 2 (handle dial 2 10 7) story

abbrev awaiting : Session ℕ
awaiting = since_new 1 2 (starts_reconnect ∷ [])

reconnecting_ends_example :
    (0 < awaiting.dialing)
    × ((step (ends_reconnect dial_failed) awaiting).conn.state ≢ InternalConnState.reconnecting)
unfolding schedule step session reconnect new
reconnecting_ends_example = reconnecting_ends 1 2 (starts_reconnect ∷ []) dial_failed refl

one_open_handle_example :
    (In 8 (since_new 1 2 story).conn.cancelled
      × (current_token (since_new 1 2 story).conn.state ≢ some 8))
    ⊎ ((current_token (since_new 1 2 story).conn.state ≡ some 8)
        × (¬ In 8 (since_new 1 2 story).conn.cancelled))
unfolding handed schedule step session reconnect new
one_open_handle_example = one_open_handle 1 2 story 8 (ground arith) (ground arith)

abbrev dialing_session : Session ℕ
dialing_session = record (session (new 1 2)) { dialing = 1 }

dial_reopens_closed_example :
    (step
      (ends_reconnect (dialed (handle dial 2 10 7) 92))
      (step closes dialing_session)).conn.state
    ≡ InternalConnState.connected (handle dial 2 10 7)
unfolding session
dial_reopens_closed_example =
    dial_reopens_closed dialing_session (handle dial 2 10 7) 92 (omega arith)

abbrev joined : Session ℕ
joined = session (new_connected 1 (handle dial 2 10 7))

closed_channel_redials_example :
    ((schedule (recovery 7) (send_message (λ _. false) (sync none) joined)).conn.state
      ≡ InternalConnState.reconnecting)
    × ((schedule (recovery 7) (send_message (λ _. false) (sync none) joined)).dialing ≡ 1)
    × In 7 (schedule (recovery 7) (send_message (λ _. false) (sync none) joined)).conn.cancelled
    × ((send_message (λ _. false) (sync none) joined).sent ≡ [])
    × (receive (λ _. none) joined ≡ (send_message (λ _. false) (sync none) joined, none))
unfolding session new_connected
closed_channel_redials_example = closed_channel_redials joined (handle dial 2 10 7) (sync none) refl

crossing :
    Crossing (handle dial 2 10 7) (handle accept 2 20 8) (handle accept 1 10 5) (handle dial 1 20 6)
crossing = record {
  ax_dials = refl;
  bx_accepts = refl;
  by_dials = refl;
  ay_accepts = refl;
  x_joins = refl;
  y_joins = refl;
}

new-Idle : Idle {EndpointId = ℕ} 1 2 (new 1 2)
unfolding new
new-Idle = record { local_is = refl; remote_is = refl; holds_none = refl }

new-Idle' : Idle {EndpointId = ℕ} 2 1 (new 2 1)
unfolding new
new-Idle' = record { local_is = refl; remote_is = refl; holds_none = refl }

glare_agree_example :
    (transport (arrive true (handle dial 2 10 7) (handle accept 2 20 8) 91 (new 1 2)).state
      ≡ some 10)
    × (transport (arrive false (handle dial 1 20 6) (handle accept 1 10 5) 92 (new 2 1)).state
        ≡ transport (arrive true (handle dial 2 10 7) (handle accept 2 20 8) 91 (new 1 2)).state)
    × In 8 (arrive true (handle dial 2 10 7) (handle accept 2 20 8) 91 (new 1 2)).cancelled
    × In 6 (arrive false (handle dial 1 20 6) (handle accept 1 10 5) 92 (new 2 1)).cancelled
glare_agree_example =
    glare_agree 1 2 (new 1 2) (new 2 1) (handle dial 2 10 7) (handle accept 2 20 8)
      (handle accept 1 10 5) (handle dial 1 20 6) true false 91 92 (omega arith) new-Idle new-Idle'
      crossing

abbrev held : ChatConnection ℕ
held = new_connected 1 (handle dial 2 10 7)

late_disconnect_example :
    set_state_disconnected_if_id_matches 7 (update_handle (handle accept 2 20 8) 91 held)
    ≡ update_handle (handle accept 2 20 8) 91 held
late_disconnect_example =
    late_disconnect (handle accept 2 20 8) 91 7 held (omega arith) (omega arith)
