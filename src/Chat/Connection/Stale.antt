-- ===== src/Chat/Connection/Stale.antt =====
-- What each change of handle in src/protocols/chat.rs does to the watch channel, to the tokens and
-- to the disconnects that come late.
use tryst_core_portfolio.Prelude.{ℕ, ◌+◌, ◌≡◌, ◌≢◌, ◌⊎◌, List, [], ◌++◌, ◌∷◌, arith, length}
use tryst_core_portfolio.Chat.Connection.{
  ChatConnectionHandle, InternalConnState, ChatConnectionState, ChatConnection, EndpointOrder,
  update_handle, close, set_state_disconnected_if_id_matches, public_state,
}

module _ {EndpointId : Type 0} where
  -- How many handles a state holds.
  abbrev pub open_handles : InternalConnState EndpointId → ℕ
  open_handles (InternalConnState.connected _) = 1
  open_handles _ = 0

  -- What `update_handle` makes of `c`: connected under the id `id`, which the receivers of the watch
  -- channel are woken for exactly once, with the local and the remote id as they were.
  pub record Connects (id : ℕ) (c d : ChatConnection EndpointId) : Type 0 where
    pub shown : public_state d.state ≡ ChatConnectionState.connected id
    pub published : d.published ≡ ChatConnectionState.connected id
    pub woken : d.notified ≡ ChatConnectionState.connected id ∷ c.notified
    pub shut : length d.cancelled ≡ length c.cancelled + open_handles c.state
    pub local_kept : d.local_id ≡ c.local_id
    pub remote_kept : d.remote_id ≡ c.remote_id

  -- Whatever the state and the new handle, `update_handle` ends connected, either under the new
  -- handle's id or under the fresh one; it publishes that id with one wake-up, also where the old
  -- handle is kept, and it shuts down one handle if one was open before, and none otherwise.
  update_handle-Connects :
      ⦃order : EndpointOrder EndpointId⦄ (h : ChatConnectionHandle EndpointId) (i : ℕ)
      (c : ChatConnection EndpointId)
      → Connects h.id c (update_handle h i c) ⊎ Connects i c (update_handle h i c)
  unfolding update_handle
  update_handle-Connects h i c = ground arith

  -- A disconnect that was spawned for the id of an earlier handle does nothing once `update_handle`
  -- has run, also where that handle was kept: its id was rotated.
  pub late_disconnect :
      ⦃order : EndpointOrder EndpointId⦄ (h : ChatConnectionHandle EndpointId) (i old : ℕ)
      (c : ChatConnection EndpointId)
      → h.id ≢ old
      → i ≢ old
      → set_state_disconnected_if_id_matches old (update_handle h i c) ≡ update_handle h i c
  unfolding update_handle set_state_disconnected_if_id_matches
  late_disconnect h i old c ne fresh = ground arith

  -- A disconnect for the id of the current handle, where the watch channel shows that id, shuts the
  -- handle down, leaves the connection disconnected and wakes the receivers once; a second one, and
  -- a `close` after it, change nothing more.
  disconnect_once :
      (c : ChatConnection EndpointId) (h : ChatConnectionHandle EndpointId)
      → c.state ≡ InternalConnState.connected h
      → c.published ≡ public_state c.state
      → (set_state_disconnected_if_id_matches h.id c ≡ record c {
        state = InternalConnState.disconnected;
        published = ChatConnectionState.disconnected;
        notified = ChatConnectionState.disconnected ∷ c.notified;
        cancelled = h.cancel_token ∷ c.cancelled;
      })
        × (set_state_disconnected_if_id_matches h.id (set_state_disconnected_if_id_matches h.id c)
            ≡ set_state_disconnected_if_id_matches h.id c)
        × (close (set_state_disconnected_if_id_matches h.id c)
            ≡ set_state_disconnected_if_id_matches h.id c)
  unfolding set_state_disconnected_if_id_matches close
  disconnect_once c h e m = ground arith

  -- `close` leaves the connection disconnected and every handle that was open shut down; it wakes
  -- the receivers only if the watch channel showed another state, and closing again does nothing.
  pub close_lem :
      (c : ChatConnection EndpointId)
      → ((close c).state ≡ InternalConnState.disconnected)
        × ((close c).published ≡ ChatConnectionState.disconnected)
        × (length (close c).cancelled ≡ length c.cancelled + open_handles c.state)
        × (((close c).notified ≡ c.notified)
            ⊎ ((c.published ≢ ChatConnectionState.disconnected)
                × ((close c).notified ≡ ChatConnectionState.disconnected ∷ c.notified)))
        × (close (close c) ≡ close c)
  unfolding close
  close_lem c = ground arith

  -- The tokens of the handles that a state holds.
  abbrev pub held : InternalConnState EndpointId → List ℕ
  held (InternalConnState.connected h) = h.cancel_token ∷ []
  held _ = []

  pub close-shut :
      (c : ChatConnection EndpointId) → (close (close c)).cancelled ≡ held c.state ++ c.cancelled
  unfolding close
  close-shut c = ground arith
