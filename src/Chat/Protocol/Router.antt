-- ===== src/Chat/Protocol/Router.antt =====
-- `ChatProtocol` of src/protocols/chat/protocol_handler.rs: what the router calls, `accept` and
-- `shutdown`, and how it starts. The actor's task is an identity; the bound of the channel of requests,
-- at which a sender waits, is not modelled.
use tryst_core_portfolio.Prelude.{
  ℕ, Bool, true, false, List, [], ◌∷◌, ◌++◌, Option, none, some, if◌then◌else◌, Result, ok, err,
  ◌≡◌, arith, Option-cases, inl, inr,
}
use tryst_core_portfolio.Chat.Protocol.{Transport}
use tryst_core_portfolio.Chat.Protocol.Actor.{ConnectionRequest, accepts}

pub record ChatProtocol (EndpointId : Type 0) : Type 0 where
  pub requests : List (ConnectionRequest EndpointId)
  pub actor_join_handle : Option ℕ
  pub cancelled : Bool
  -- The tasks that a shutdown has waited for.
  pub awaited : List ℕ

pub data RouterError : Type 0 where
  locally_closed : RouterError

module _ {EndpointId : Type 0} where
  -- `ChatProtocol::new`, which starts the actor's task.
  unfoldable pub new : ℕ → ChatProtocol EndpointId
  new task = record {
    requests = [];
    actor_join_handle = some task;
    cancelled = false;
    awaited = [];
  }

  -- `accept`; `closed` says that the actor has dropped the channel of requests.
  unfoldable pub accept :
      (closed : Bool)
      → Transport EndpointId
      → ChatProtocol EndpointId
      → Result (Unit {0}) RouterError × ChatProtocol EndpointId
  accept closed conn p =
      if closed
      then (err locally_closed, p)
      else (ok tt, record p { requests = p.requests ++ accepts conn ∷ [] })

  -- `shutdown`.
  unfoldable pub shutdown : ChatProtocol EndpointId → ChatProtocol EndpointId
  shutdown p = elim p.actor_join_handle [
    | none ↦ record p { cancelled = true }
    | some task ↦ record p {
      cancelled = true;
      actor_join_handle = none;
      awaited = task ∷ p.awaited;
    }
  ]

  -- A second shutdown changes nothing.
  shutdown-shutdown : (p : ChatProtocol EndpointId) → shutdown (shutdown p) ≡ shutdown p
  unfolding shutdown
  shutdown-shutdown p = elim (Option-cases p.actor_join_handle) [
    | inl e ↦ ground arith
    | inr (task, e) ↦ ground arith
  ]
