-- ===== src/Chat/Protocol/Actor.antt =====
-- The request loop of src/protocols/chat/protocol_handler.rs, the task that watches a connection,
-- and the methods of `ChatProtocol`.
--
-- A turn of the loop is what its `select!` took, with what the foreign calls of that turn return.
-- The actor keeps as a log the accepted results that it queued, oldest first, the answers that it
-- gave to dials, oldest first, and the close calls on connections.
pub mod Service
use tryst_core_portfolio.Prelude.{
  ℕ, Bool, true, false, List, [], ◌∷◌, ◌++◌, map, Option, none, some, if◌then◌else◌, Result, ok,
  err, map_err,
}
use tryst_core_portfolio.Chat.CloseReason.{ConnectionCloseReason, normal, try_from}
use tryst_core_portfolio.Chat.Connection.{ConnOrigin, accept, dial, ChatConnectionHandle}
use tryst_core_portfolio.Chat.Protocol.{
  Transport, Fresh, EstablishError, Established, process_established_connection,
}

-- The errors of a dial: the transport's, or those of the connection that it made.
pub data DialError : Type 0 where
  connect_failed : DialError
  not_established : EstablishError → DialError

-- `ConnectionRequest`; the sender of a dial's answer is an identity.
pub data ConnectionRequest (EndpointId : Type 0) : Type 0 where
  accepts : Transport EndpointId → ConnectionRequest EndpointId
  dials : EndpointId → ℕ → ConnectionRequest EndpointId

-- What a turn meets: the transport connection that `connect` makes, the fresh parts of the handle,
-- and whether the receiver of the result is still there.
pub record Surroundings (EndpointId : Type 0) : Type 0 where
  pub connects : Option (Transport EndpointId)
  pub fresh : Fresh
  pub heard : Bool

pub data Turn (EndpointId : Type 0) : Type 0 where
  cancelled : Turn EndpointId
  channel_closed : Turn EndpointId
  serves : ConnectionRequest EndpointId → Surroundings EndpointId → Turn EndpointId

pub record ProtocolLog (EndpointId : Type 0) : Type 0 where
  pub accepted : List (Result (ChatConnectionHandle EndpointId) EstablishError)
  pub answered : List (ℕ × Result (ChatConnectionHandle EndpointId) DialError)
  pub closes : List (ℕ × ConnectionCloseReason)

-- How the loop stands after some turns: it goes on, or has returned `Ok` or an error.
pub data LoopState : Type 0 where
  running stopped failed : LoopState

-- How a watched connection ends; a join result is whether the task ended without a panic.
pub data Ending : Type 0 where
  token_cancelled : Ending
  locally_closed : Ending
  application_closed : ℕ → Ending
  closed_otherwise : Ending
  receiving_done sending_done : Bool → Ending

-- The level of the line that is logged about it.
pub data Report : Type 0 where
  info warn error : Report

report_code : ℕ → Report
report_code code = elim (try_from code) [ ok _ ↦ warn | err _ ↦ error ]

-- The task that watches a connection: what it reports, and the reason it closes it with.
pub watch : Ending → Report × ConnectionCloseReason
unfolding report_code try_from
watch token_cancelled = (info, normal)
watch locally_closed = (info, normal)
watch (application_closed code) = (report_code code, normal)
watch closed_otherwise = (error, normal)
watch (receiving_done joined) = (if joined then info else error, normal)
watch (sending_done joined) = (if joined then info else error, normal)

-- The errors of `accept_conn`.
pub data AcceptError : Type 0 where
  accept_cancelled accept_channel_closed : AcceptError
  accept_failed : EstablishError → AcceptError

module _ {EndpointId : Type 0} where
  closes_of : Transport EndpointId → Established EndpointId → List (ℕ × ConnectionCloseReason)
  closes_of conn e = map (λ r. (conn.connection, r)) e.closed

  -- `dial_endpoint`: the result, and the close calls on the way.
  pub dial_endpoint :
      Option (Transport EndpointId)
      → Fresh
      → Result (ChatConnectionHandle EndpointId) DialError × List (ℕ × ConnectionCloseReason)
  unfolding closes_of process_established_connection
  dial_endpoint none fresh = (err connect_failed, [])
  dial_endpoint (some conn) fresh =
      let e = process_established_connection dial conn fresh in
      (map_err not_established e.result, closes_of conn e)

  -- The body of the loop for a request.
  serve :
      ConnectionRequest EndpointId
      → Surroundings EndpointId
      → ProtocolLog EndpointId
      → ProtocolLog EndpointId × LoopState
  unfolding closes_of process_established_connection dial_endpoint
  serve (accepts conn) around log =
      let e = process_established_connection accept conn around.fresh in
      let closes = log.closes ++ closes_of conn e in
      if around.heard
      then (record log { accepted = log.accepted ++ e.result ∷ []; closes = closes }, running)
      else (record log { closes = closes }, failed)
  serve (dials endpoint_id respond_to) around log =
      let (result, closes) = dial_endpoint around.connects around.fresh in
      let log' = record log { closes = log.closes ++ closes } in
      if around.heard
      then (record log' { answered = log.answered ++ (respond_to, result) ∷ [] }, running)
      else (log', running)

  pub turn : Turn EndpointId → ProtocolLog EndpointId → ProtocolLog EndpointId × LoopState
  unfolding serve closes_of dial_endpoint
  turn cancelled log = (log, stopped)
  turn channel_closed log = (log, failed)
  turn (serves request around) log = serve request around log

  -- `run`: the loop ends with the first turn that returns.
  pub run : List (Turn EndpointId) → ProtocolLog EndpointId → ProtocolLog EndpointId × LoopState
  run [] log = (log, running)
  run (t ∷ ts) log =
      let rest = run ts (turn t log).0 in
      elim (turn t log).1 [
        | running ↦ rest
        | stopped ↦ ((turn t log).0, stopped)
        | failed ↦ ((turn t log).0, failed)
      ]

  -- `accept_conn`: the `select!` takes the cancellation, or the oldest queued result; the channel
  -- fails where it is closed and empty. The result, and what is left in the queue.
  pub accept_conn :
      Bool
      → List (Result (ChatConnectionHandle EndpointId) EstablishError)
      → Result (ChatConnectionHandle EndpointId) AcceptError
        × List (Result (ChatConnectionHandle EndpointId) EstablishError)
  accept_conn true queue = (err accept_cancelled, queue)
  accept_conn false [] = (err accept_channel_closed, [])
  accept_conn false (r ∷ queue) = (map_err accept_failed r, queue)
