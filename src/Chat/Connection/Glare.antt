-- ===== src/Chat/Connection/Glare.antt =====
-- Glare in src/protocols/chat.rs: two peers that dial each other at once.
use tryst_core_portfolio.Prelude.{
  ℕ, ◌≡◌, ◌≢◌, Bool, true, false, arith, In, Bool-cases, inl, inr, Option, some, none,
  if◌then◌else◌,
}
use tryst_core_portfolio.Chat.Connection.{
  ChatConnectionHandle, InternalConnState, ChatConnection, EndpointOrder, accept, dial,
  update_handle,
}

module _ {EndpointId : Type 0} where
  -- The transport connection that a state holds.
  abbrev pub transport : InternalConnState EndpointId → Option ℕ
  transport (InternalConnState.connected h) = some h.connection
  transport _ = none

  -- The peers `a` and `b` have two transport connections: `a` dialed the one whose ends are `ax` and
  -- `bx`, and `b` dialed the one whose ends are `ay` and `by`.
  pub record Crossing (ax ay bx by : ChatConnectionHandle EndpointId) : Type 0 where
    pub ax_dials : ax.origin ≡ dial
    pub bx_accepts : bx.origin ≡ accept
    pub by_dials : by.origin ≡ dial
    pub ay_accepts : ay.origin ≡ accept
    pub x_joins : ax.connection ≡ bx.connection
    pub y_joins : ay.connection ≡ by.connection

  -- A connection between `local` and `remote` that holds no handle.
  pub record Idle (local remote : EndpointId) (c : ChatConnection EndpointId) : Type 0 where
    pub local_is : c.local_id ≡ local
    pub remote_is : c.remote_id ≡ remote
    pub holds_none : transport c.state ≡ none

  -- Two handles that arrive one after the other, the second one first if the flag says so.
  abbrev pub arrive :
      ⦃order : EndpointOrder EndpointId⦄
      → Bool
      → ChatConnectionHandle EndpointId
      → ChatConnectionHandle EndpointId
      → ℕ
      → ChatConnection EndpointId
      → ChatConnection EndpointId
  arrive true h k i c = update_handle h i (update_handle k i c)
  arrive false h k i c = update_handle k i (update_handle h i c)

  one_side :
      ⦃order : EndpointOrder EndpointId⦄ (flip first : Bool) (h k : ChatConnectionHandle EndpointId)
      (i : ℕ) (c : ChatConnection EndpointId)
      → order.lt c.local_id c.remote_id ≡ first
      → transport c.state ≡ none
      → h.origin ≡ dial
      → k.origin ≡ accept
      → (transport (arrive flip h k i c).state
          ≡ some (if first then h.connection else k.connection))
        × In (if first then k.cancel_token else h.cancel_token) (arrive flip h k i c).cancelled
  unfolding update_handle
  one_side flip first h k i c o e p q = ground arith

  -- Two peers with different ids that hold no handle, and that get the ends of two crossing
  -- connections, each in an order of its own, both end up on the same transport connection, the
  -- one that the peer with the smaller id dialed, and both shut their end of the other one down.
  pub glare_agree :
      ⦃order : EndpointOrder EndpointId⦄ (a b : EndpointId) (ca cb : ChatConnection EndpointId)
      (ax ay bx by : ChatConnectionHandle EndpointId) (flip_a flip_b : Bool) (i j : ℕ)
      → a ≢ b
      → Idle a b ca
      → Idle b a cb
      → Crossing ax ay bx by
      → (transport (arrive flip_a ax ay i ca).state
          ≡ some (if order.lt a b then ax.connection else by.connection))
        × (transport (arrive flip_b by bx j cb).state ≡ transport (arrive flip_a ax ay i ca).state)
        × In
            (if order.lt a b then ay.cancel_token else ax.cancel_token)
            (arrive flip_a ax ay i ca).cancelled
        × In
            (if order.lt a b then by.cancel_token else bx.cancel_token)
            (arrive flip_b by bx j cb).cancelled
  glare_agree ⦃order⦄ a b ca cb ax ay bx by flip_a flip_b i j ne ia ib x =
      elim (Bool-cases (order.lt a b)) [
        | inl l ↦
            let p =
              one_side flip_a true ax ay i ca (rw (ia.local_is, ia.remote_is) l) ia.holds_none
                x.ax_dials x.ay_accepts in
            let q =
              one_side flip_b false by bx j cb
                (rw (ib.local_is, ib.remote_is) (order.lt_asymm a b l)) ib.holds_none x.by_dials
                x.bx_accepts in
            ground arith
        | inr g ↦
            let p =
              one_side flip_a false ax ay i ca (rw (ia.local_is, ia.remote_is) g) ia.holds_none
                x.ax_dials x.ay_accepts in
            let q =
              one_side flip_b true by bx j cb
                (rw (ib.local_is, ib.remote_is) (order.lt_total a b ne g)) ib.holds_none x.by_dials
                x.bx_accepts in
            ground arith
      ]
