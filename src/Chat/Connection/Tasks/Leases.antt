-- ===== src/Chat/Connection/Tasks/Leases.antt =====
-- Which transport connections stay open: a handle that `update_handle` or `new_connected` was
-- given is shut down by its cancellation token (src/protocols/chat.rs).
use tryst_core_portfolio.Prelude.{
  ℕ, ◌≡◌, ◌≢◌, ◌⊎◌, inl, inr, List, [], ◌∷◌, arith, In, Option, some, none, if◌then◌else◌, ◌==◌,
}
use tryst_core_portfolio.Chat.Connection.{InternalConnState, EndpointOrder, new}
use tryst_core_portfolio.Chat.Connection.Tasks.Invariant.{since_new}
use tryst_core_portfolio.Chat.Connection.Tasks.{
  Session, dialed, Event, ends_reconnect, accepts, step, schedule, session, reconnect,
}

abbrev hand : Option ℕ → List ℕ → List ℕ
hand none ts = ts
hand (some t) ts = t ∷ ts

-- No token stands twice.
abbrev pub AllDistinct : List ℕ → Type 0
AllDistinct [] = Unit
AllDistinct (t ∷ ts) = (¬ In t ts) × AllDistinct ts

hand-AllDistinct : (o : Option ℕ) (ts : List ℕ) → AllDistinct (hand o ts) → AllDistinct ts
hand-AllDistinct none ts d = d
hand-AllDistinct (some t) ts d = d.1

module _ {EndpointId : Type 0} where
  -- The token of the handle that a state holds.
  abbrev pub current_token : InternalConnState EndpointId → Option ℕ
  current_token (InternalConnState.connected h) = some h.cancel_token
  current_token _ = none

  -- The token of the handle that a step brings, if it brings one.
  abbrev brings : Event EndpointId → Session EndpointId → Option ℕ
  brings (ends_reconnect (dialed h _)) s = if s.dialing == 0 then none else some h.cancel_token
  brings (accepts h _) s = some h.cancel_token
  brings _ s = none

  -- The tokens of the handles that a sequence of steps hands to `update_handle`.
  unfoldable pub handed :
      ⦃order : EndpointOrder EndpointId⦄ → List (Event EndpointId) → Session EndpointId → List ℕ
  handed [] s = []
  handed (e ∷ es) s = hand (brings e s) (handed es (step e s))

  -- A handle with the token `t` was shut down, or is the current one.
  abbrev Accounted : ℕ → Session EndpointId → Type 0
  Accounted t s = In t s.conn.cancelled ⊎ (current_token s.conn.state ≡ some t)

  step-Accounted :
      ⦃order : EndpointOrder EndpointId⦄ (t : ℕ) (e : Event EndpointId) (s : Session EndpointId)
      → Accounted t s
      → Accounted t (step e s)
  unfolding step
  step-Accounted t e s a = ground arith

  brought-Accounted :
      ⦃order : EndpointOrder EndpointId⦄ (t : ℕ) (e : Event EndpointId) (s : Session EndpointId)
      → brings e s ≡ some t
      → Accounted t (step e s)
  unfolding step
  brought-Accounted t e s b = ground arith

  schedule-Accounted :
      ⦃order : EndpointOrder EndpointId⦄ (t : ℕ) (es : List (Event EndpointId))
      (s : Session EndpointId)
      → In t (handed es s) ⊎ Accounted t s
      → Accounted t (schedule es s)
  unfolding schedule handed
  schedule-Accounted t [] s h = ground arith
  schedule-Accounted t (e ∷ es) s (inr a) =
      schedule-Accounted t es (step e s) (inr (step-Accounted t e s a))
  schedule-Accounted t (e ∷ es) s (inl i) =
      schedule-Accounted t es (step e s) (ground (arith, brought-Accounted t e s))

  -- Nothing is known yet of the tokens `ts`, and the current handle was not shut down.
  record Apart (s : Session EndpointId) (ts : List ℕ) : Type 0 where
    unknown : (t : ℕ) → In t ts → ¬ Accounted t s
    live : (t : ℕ) → current_token s.conn.state ≡ some t → ¬ In t s.conn.cancelled

  step-sources :
      ⦃order : EndpointOrder EndpointId⦄ (t : ℕ) (e : Event EndpointId) (s : Session EndpointId)
      → Accounted t (step e s)
      → Accounted t s ⊎ (brings e s ≡ some t)
  unfolding step
  step-sources t e s a = ground arith

  step-live :
      ⦃order : EndpointOrder EndpointId⦄ (t : ℕ) (e : Event EndpointId) (s : Session EndpointId)
      → ((x : ℕ) → brings e s ≡ some x → ¬ Accounted x s)
      → ((x : ℕ) → current_token s.conn.state ≡ some x → ¬ In x s.conn.cancelled)
      → current_token (step e s).conn.state ≡ some t
      → ¬ In t (step e s).conn.cancelled
  unfolding step
  step-live t e s new live c = ground (arith, new t, live t)

  step-Apart :
      ⦃order : EndpointOrder EndpointId⦄ (e : Event EndpointId) (s : Session EndpointId)
      (ts : List ℕ)
      → AllDistinct (hand (brings e s) ts)
      → Apart s (hand (brings e s) ts)
      → Apart (step e s) ts
  step-Apart e s ts d a = record {
    unknown = λ t i known. elim (step-sources t e s known) [
      | inl before ↦ a.unknown t (kept (brings e s) t i) before
      | inr b ↦ taken (brings e s) t b d i
    ];
    live = λ t. step-live t e s (λ x b. a.unknown x (first (brings e s) x b)) a.live;
  }
    where
      kept : (o : Option ℕ) (t : ℕ) → In t ts → In t (hand o ts)
      kept o t i = ground arith

      first : (o : Option ℕ) (t : ℕ) → o ≡ some t → In t (hand o ts)
      first o t b = ground arith

      taken : (o : Option ℕ) (t : ℕ) → o ≡ some t → AllDistinct (hand o ts) → ¬ In t ts
      taken o t b d = ground arith

  schedule-live :
      ⦃order : EndpointOrder EndpointId⦄ (es : List (Event EndpointId)) (s : Session EndpointId)
      → AllDistinct (handed es s)
      → Apart s (handed es s)
      → (t : ℕ) → current_token (schedule es s).conn.state ≡ some t
      → ¬ In t (schedule es s).conn.cancelled
  unfolding schedule handed
  schedule-live [] s d a = a.live
  schedule-live (e ∷ es) s d a =
      schedule-live es (step e s) (hand-AllDistinct (brings e s) (handed es (step e s)) d)
        (step-Apart e s (handed es (step e s)) d a)

  new-Apart :
      (local remote : EndpointId) (ts : List ℕ) → Apart (reconnect (session (new local remote))) ts
  unfolding new session reconnect
  new-Apart local remote ts = record { unknown = λ t i a. ground arith; live = λ t c. cc }

  -- Of all the handles that dials and accepts bring to a connection made by `new`, in any sequence
  -- of steps and each with a token of its own, every one was shut down, but for the one that the
  -- connection holds at the end, and that one was not shut down.
  pub one_open_handle :
      ⦃order : EndpointOrder EndpointId⦄ (local remote : EndpointId) (es : List (Event EndpointId))
      (t : ℕ)
      → AllDistinct (handed es (reconnect (session (new local remote))))
      → In t (handed es (reconnect (session (new local remote))))
      → (In t (since_new local remote es).conn.cancelled
          × (current_token (since_new local remote es).conn.state ≢ some t))
        ⊎ ((current_token (since_new local remote es).conn.state ≡ some t)
            × (¬ In t (since_new local remote es).conn.cancelled))
  one_open_handle local remote es t d i =
      let s = reconnect (session (new local remote)) in
      let live = schedule-live es s d (new-Apart local remote (handed es s)) t in
      elim (schedule-Accounted t es s (inl i)) [
        | inl gone ↦ inl (gone, λ c. live c gone)
        | inr c ↦ inr (c, live c)
      ]
