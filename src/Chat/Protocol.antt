-- ===== src/Chat/Protocol.antt =====
-- The protocol actor of src/protocols/chat/protocol_handler.rs: how a transport connection becomes
-- a `ChatConnectionHandle`, and how the actor serves its requests.
--
-- The transport (iroh) is an argument: `Transport` holds what its calls on one connection return.
-- What the code calls on it is kept as a log: the close reasons it was closed with, and the bytes
-- of the open message that were sent. The fresh UUID, channels and token of a handle are arguments.
pub mod Actor
pub mod Router
pub mod Handshake
mod Examples
use tryst_core_portfolio.Prelude.{
  ℕ, Bool, true, false, List, [], ◌∷◌, ◌++◌, Option, none, some, ◌==◌, if◌then◌else◌, ◌&&◌, Result,
  ok, err, map_err,
}
use tryst_core_portfolio.Chat.CloseReason.{
  ConnectionCloseReason, normal, invalid_open_message, stream_read_failed, stream_write_failed,
  try_from,
}
use tryst_core_portfolio.Chat.Connection.{ConnOrigin, accept, dial, ChatConnectionHandle}

-- `OPEN_MESSAGE`.
abbrev pub open_message : List ℕ
open_message =
    b'O' ∷ b'P' ∷ b'E' ∷ b'N' ∷ b'_' ∷ b'M' ∷ b'E' ∷ b'S' ∷ b'S' ∷ b'A' ∷ b'G' ∷ b'E' ∷ []

abbrev pub same_bytes : List ℕ → List ℕ → Bool
same_bytes [] [] = true
same_bytes (a ∷ as') (b ∷ bs) = (a == b) && same_bytes as' bs
same_bytes _ _ = false

-- One transport connection: its peer, whether its stream opens, the bytes that `read_exact` of the
-- length of the open message delivers, and whether `write_all` of the open message succeeds.
pub record Transport (EndpointId : Type 0) : Type 0 where
  pub remote : EndpointId
  pub connection : ℕ
  pub stream_opens : Bool
  pub open_read : Option (List ℕ)
  pub open_write : Bool

-- What a new handle draws: a UUID, the two channels, a child of the actor's token.
pub record Fresh : Type 0 where
  pub id : ℕ
  pub tx : ℕ
  pub rx : ℕ
  pub cancel_token : ℕ

-- The errors of `process_established_connection`, by their context.
pub data EstablishError : Type 0 where
  no_stream open_unread open_invalid open_unsent : EstablishError

pub record Established (EndpointId : Type 0) : Type 0 where
  pub result : Result (ChatConnectionHandle EndpointId) EstablishError
  pub closed : List ConnectionCloseReason
  pub sent : List ℕ

module _ {EndpointId : Type 0} where
  new_handle : ConnOrigin → Transport EndpointId → Fresh → ChatConnectionHandle EndpointId
  new_handle origin conn fresh = record {
    id = fresh.id;
    origin = origin;
    remote = conn.remote;
    connection = conn.connection;
    tx = fresh.tx;
    rx = fresh.rx;
    cancel_token = fresh.cancel_token;
  }

  check_open : Option (List ℕ) → ChatConnectionHandle EndpointId → Established EndpointId
  check_open none h = record {
    result = err open_unread;
    closed = stream_read_failed ∷ [];
    sent = [];
  }
  check_open (some buf) h =
      if same_bytes buf open_message
      then record { result = ok h; closed = []; sent = [] }
      else record { result = err open_invalid; closed = invalid_open_message ∷ []; sent = [] }

  send_open : Bool → ChatConnectionHandle EndpointId → Established EndpointId
  send_open written h =
      if written
      then record { result = ok h; closed = []; sent = open_message }
      else record { result = err open_unsent; closed = stream_write_failed ∷ []; sent = [] }

  -- `process_established_connection` up to the spawning of its tasks.
  unfoldable pub process_established_connection :
      ConnOrigin → Transport EndpointId → Fresh → Established EndpointId
  unfolding new_handle check_open send_open
  process_established_connection accept conn fresh =
      if conn.stream_opens
      then check_open conn.open_read (new_handle accept conn fresh)
      else record { result = err no_stream; closed = []; sent = [] }
  process_established_connection dial conn fresh =
      if conn.stream_opens
      then send_open conn.open_write (new_handle dial conn fresh)
      else record { result = err no_stream; closed = []; sent = [] }
