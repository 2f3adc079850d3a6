-- ===== src/Chat/Connection.antt =====
-- The connection state machine of src/protocols/chat.rs: the states, the handle, and each method
-- of `ChatConnection`.
--
-- The lock `state: RwLock<InternalConnState>` makes each method body below one atomic step, so a
-- method is a function from the connection to the new connection. What a method calls on foreign
-- objects is kept as a log: `published` is the value in the watch channel and `notified` the
-- values whose publication woke the receivers, newest first; `cancelled` are the cancellation
-- tokens on which `cancel` was called. `EndpointId` and its order are the iroh library's and stand
-- as a parameter; a UUID, a token, a channel and a transport connection are identities.
pub mod Tasks
pub mod Glare
pub mod Stale
pub mod Numbers
mod Examples
use tryst_core_portfolio.Prelude.{
  ℕ, Bool, true, false, List, [], ◌∷◌, Option, none, some, ◌==◌, if◌then◌else◌, ◌≡◌, ◌≢◌,
}

pub data ConnOrigin : Type 0 where
  accept dial : ConnOrigin

pub record ChatConnectionHandle (EndpointId : Type 0) : Type 0 where
  pub id : ℕ
  pub origin : ConnOrigin
  pub remote : EndpointId
  pub connection : ℕ
  pub tx : ℕ
  pub rx : ℕ
  pub cancel_token : ℕ

pub data InternalConnState (EndpointId : Type 0) : Type 0 where
  disconnected : InternalConnState EndpointId
  connected : ChatConnectionHandle EndpointId → InternalConnState EndpointId
  reconnecting : InternalConnState EndpointId

pub data ChatConnectionState : Type 0 where
  disconnected : ChatConnectionState
  connected : ℕ → ChatConnectionState
  reconnecting : ChatConnectionState

pub record ChatConnection (EndpointId : Type 0) : Type 0 where
  pub local_id : EndpointId
  pub remote_id : EndpointId
  pub state : InternalConnState EndpointId
  pub published : ChatConnectionState
  pub notified : List ChatConnectionState
  pub cancelled : List ℕ

-- The order on endpoint ids that the tie-breaker uses: iroh's `Ord`, a strict total order.
pub record EndpointOrder (EndpointId : Type 0) : Type 0 where
  pub lt : EndpointId → EndpointId → Bool
  pub lt_asymm : (a b : EndpointId) → lt a b ≡ true → lt b a ≡ false
  pub lt_total : (a b : EndpointId) → a ≢ b → lt a b ≡ false → lt b a ≡ true
  pub lt_trans : (a b c : EndpointId) → lt a b ≡ true → lt b c ≡ true → lt a c ≡ true

abbrev pub same_origin : ConnOrigin → ConnOrigin → Bool
same_origin accept accept = true
same_origin dial dial = true
same_origin accept dial = false
same_origin dial accept = false

abbrev pub same_state : ChatConnectionState → ChatConnectionState → Bool
same_state ChatConnectionState.disconnected ChatConnectionState.disconnected = true
same_state (ChatConnectionState.connected a) (ChatConnectionState.connected b) = a == b
same_state ChatConnectionState.reconnecting ChatConnectionState.reconnecting = true
same_state _ _ = false

-- The decision of `update_handle` between the current handle and a new one of the other origin:
-- the endpoint with the smaller id prefers the connection that it dialed.
abbrev pub prefers_new : Bool → ConnOrigin → Bool
prefers_new true dial = true
prefers_new true accept = false
prefers_new false accept = true
prefers_new false dial = false

module _ {EndpointId : Type 0} where
  -- `From<&InternalConnState> for ChatConnectionState`.
  abbrev pub public_state : InternalConnState EndpointId → ChatConnectionState
  public_state InternalConnState.disconnected = ChatConnectionState.disconnected
  public_state (InternalConnState.connected h) = ChatConnectionState.connected h.id
  public_state InternalConnState.reconnecting = ChatConnectionState.reconnecting

  -- `shutdown` of the handle that a state holds, if it holds one.
  abbrev pub shutdown_current : InternalConnState EndpointId → List ℕ → List ℕ
  shutdown_current InternalConnState.disconnected ts = ts
  shutdown_current (InternalConnState.connected h) ts = h.cancel_token ∷ ts
  shutdown_current InternalConnState.reconnecting ts = ts

  -- `*guard = s` and then `send_modify`: the receivers are woken whatever the value was.
  pub put_state :
      InternalConnState EndpointId → ChatConnection EndpointId → ChatConnection EndpointId
  put_state s c = record c {
    state = s;
    published = public_state s;
    notified = public_state s ∷ c.notified;
  }

  -- `*guard = s` and then `send_if_modified`: the receivers are woken if the value differs.
  pub put_state_if_modified :
      InternalConnState EndpointId → ChatConnection EndpointId → ChatConnection EndpointId
  put_state_if_modified s c =
      if same_state c.published (public_state s) then record c { state = s } else record c {
        state = s;
        published = public_state s;
        notified = public_state s ∷ c.notified;
      }

  -- `set_state`.
  pub set_state :
      InternalConnState EndpointId → ChatConnection EndpointId → ChatConnection EndpointId
  unfolding put_state_if_modified
  set_state s c =
      put_state_if_modified s (record c { cancelled = shutdown_current c.state c.cancelled })

  -- `close`.
  pub close : ChatConnection EndpointId → ChatConnection EndpointId
  unfolding set_state
  close c = set_state InternalConnState.disconnected c

  disconnect_if :
      InternalConnState EndpointId → ℕ → ChatConnection EndpointId → ChatConnection EndpointId
  unfolding put_state_if_modified
  disconnect_if (InternalConnState.connected h) expected c =
      if h.id == expected
      then put_state_if_modified InternalConnState.disconnected
          (record c { cancelled = h.cancel_token ∷ c.cancelled })
      else c
  disconnect_if _ expected c = c

  -- `set_state_disconnected_if_id_matches`.
  pub set_state_disconnected_if_id_matches :
      ℕ → ChatConnection EndpointId → ChatConnection EndpointId
  unfolding disconnect_if
  set_state_disconnected_if_id_matches expected c = disconnect_if c.state expected c

  abbrev is_disconnected : InternalConnState EndpointId → Bool
  is_disconnected InternalConnState.disconnected = true
  is_disconnected _ = false

  abbrev is_reconnecting : InternalConnState EndpointId → Bool
  is_reconnecting InternalConnState.reconnecting = true
  is_reconnecting _ = false

  -- `set_state_if_disconnected`: the new connection, and whether the state was set.
  pub set_state_if_disconnected :
      InternalConnState EndpointId → ChatConnection EndpointId → ChatConnection EndpointId × Bool
  unfolding put_state_if_modified
  set_state_if_disconnected s c =
      if is_disconnected c.state then (put_state_if_modified s c, true) else (c, false)

  -- `set_state_if_reconnecting`.
  pub set_state_if_reconnecting :
      InternalConnState EndpointId → ChatConnection EndpointId → ChatConnection EndpointId × Bool
  unfolding put_state_if_modified
  set_state_if_reconnecting s c =
      if is_reconnecting c.state then (put_state_if_modified s c, true) else (c, false)

  -- `new`, before its call of `reconnect`.
  pub new : EndpointId → EndpointId → ChatConnection EndpointId
  new local remote = record {
    local_id = local;
    remote_id = remote;
    state = InternalConnState.disconnected;
    published = ChatConnectionState.disconnected;
    notified = [];
    cancelled = [];
  }

  -- `new_connected`.
  pub new_connected : EndpointId → ChatConnectionHandle EndpointId → ChatConnection EndpointId
  new_connected local h = record {
    local_id = local;
    remote_id = h.remote;
    state = InternalConnState.connected h;
    published = ChatConnectionState.connected h.id;
    notified = [];
    cancelled = [];
  }

  should_switch : Bool → InternalConnState EndpointId → ChatConnectionHandle EndpointId → Bool
  should_switch local_lt (InternalConnState.connected current) new_handle =
      if same_origin current.origin new_handle.origin
      then true
      else prefers_new local_lt new_handle.origin
  should_switch local_lt _ new_handle = true

  switch_handle :
      ChatConnectionHandle EndpointId → ChatConnection EndpointId → ChatConnection EndpointId
  unfolding put_state
  switch_handle new_handle c =
      put_state (InternalConnState.connected new_handle)
        (record c { cancelled = shutdown_current c.state c.cancelled })

  rotate_id :
      InternalConnState EndpointId → ℕ → ChatConnection EndpointId → ChatConnection EndpointId
  unfolding put_state
  rotate_id (InternalConnState.connected current) new_id c =
      put_state (InternalConnState.connected (record current { id = new_id })) c
  rotate_id _ new_id c = c

  -- `update_handle`; `new_id` is the UUID that is drawn if the current handle is kept.
  pub update_handle :
      ⦃order : EndpointOrder EndpointId⦄
      → ChatConnectionHandle EndpointId
      → ℕ
      → ChatConnection EndpointId
      → ChatConnection EndpointId
  unfolding should_switch switch_handle rotate_id
  update_handle ⦃order⦄ new_handle new_id c =
      if should_switch (order.lt c.local_id c.remote_id) c.state new_handle
      then switch_handle new_handle c
      else rotate_id c.state new_id (record c { cancelled = new_handle.cancel_token ∷ c.cancelled })
