-- ===== src/Chat/Protocol/Actor/Service.antt =====
-- How the request loop of src/protocols/chat/protocol_handler.rs serves its requests.
use tryst_core_portfolio.Prelude.{
  ℕ, suc, ◌+◌, ◌≡◌, true, List, [], ◌∷◌, ◌++◌, map, arith, length, length-append, All, append_assoc,
  append-nil, map-append,
}
use tryst_core_portfolio.Chat.Connection.{accept}
use tryst_core_portfolio.Chat.Protocol.{process_established_connection}
use tryst_core_portfolio.Chat.Protocol.Actor.{
  accepts, dials, Turn, cancelled, channel_closed, serves, ProtocolLog, running, run, turn,
  dial_endpoint,
}

module _ {EndpointId : Type 0} where
  -- Turns that serve a request whose result somebody waits for.
  abbrev pub Heard : Turn EndpointId → Type 0
  Heard (serves request around) = around.heard ≡ true
  Heard _ = ⊥

  -- The senders that the dials of some turns are to answer on, in order.
  abbrev pub responders : List (Turn EndpointId) → List ℕ
  responders [] = []
  responders (serves (dials _ respond_to) _ ∷ ts) = respond_to ∷ responders ts
  responders (_ ∷ ts) = responders ts

  -- The number of accept requests among some turns.
  abbrev pub accept_requests : List (Turn EndpointId) → ℕ
  accept_requests [] = 0
  accept_requests (serves (accepts _) _ ∷ ts) = suc (accept_requests ts)
  accept_requests (_ ∷ ts) = accept_requests ts

  abbrev pub senders : ProtocolLog EndpointId → List ℕ
  senders log = map (λ a. a.0) log.answered

  -- One request.
  record Serves (t : Turn EndpointId) (log : ProtocolLog EndpointId) : Type 0 where
    goes_on : (turn t log).1 ≡ running
    answers : senders (turn t log).0 ≡ senders log ++ responders (t ∷ [])
    queues : length (turn t log).0.accepted ≡ length log.accepted + accept_requests (t ∷ [])

  turn-Serves : (t : Turn EndpointId) (log : ProtocolLog EndpointId) → Heard t → Serves t log
  unfolding turn
  turn-Serves cancelled log h = absurd h
  turn-Serves channel_closed log h = absurd h
  turn-Serves (serves (accepts conn) around) log h = record {
    goes_on = ground arith;
    answers = ground (arith, append-nil (senders log));
    queues = ground (
      arith,
      length-append log.accepted
          ((process_established_connection accept conn around.fresh).result ∷ []),
    );
  }
  turn-Serves (serves (dials e respond_to) around) log h = record {
    goes_on = ground arith;
    answers = ground (
      arith,
      map-append (λ a. a.0) log.answered
          ((respond_to, (dial_endpoint around.connects around.fresh).0) ∷ []),
    );
    queues = ground arith;
  }

  responders-cons :
      (t : Turn EndpointId) (ts : List (Turn EndpointId))
      → responders (t ∷ ts) ≡ responders (t ∷ []) ++ responders ts
  responders-cons t ts = ground arith

  accept_requests-cons :
      (t : Turn EndpointId) (ts : List (Turn EndpointId))
      → accept_requests (t ∷ ts) ≡ accept_requests (t ∷ []) + accept_requests ts
  accept_requests-cons t ts = ground arith

  -- As long as the loop is not cancelled, its channel is open and every result is waited for, it
  -- keeps running: each dial is answered once, on its own sender and in the order of the requests,
  -- and each accept request queues one result.
  pub run_serves :
      (ts : List (Turn EndpointId)) (log : ProtocolLog EndpointId)
      → All Heard ts
      → ((run ts log).1 ≡ running)
        × (senders (run ts log).0 ≡ senders log ++ responders ts)
        × (length (run ts log).0.accepted ≡ length log.accepted + accept_requests ts)
  unfolding run
  run_serves [] log h = ground (arith, append-nil (senders log))
  run_serves (t ∷ ts) log h =
      let s = turn-Serves t log h.0 in
      ground (
        arith,
        s.goes_on,
        s.answers,
        s.queues,
        run_serves ts (turn t log).0 h.1,
        responders-cons t ts,
        accept_requests-cons t ts,
        append_assoc (senders log) (responders (t ∷ [])) (responders ts),
      )
