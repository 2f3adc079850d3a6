-- ===== src/Failure.antt =====
-- The errors of src/error.rs. An error of a foreign library is the text that its `to_string` gives.
use Prim.Native.String.{String, ◌++◌}

pub data LibError : Type 0 where
  sqlx sqlx_migrations peer_connection automerge chat_not_found invalid_peer_id unexpected :
      String → LibError
  endpoint_startup lock_poisoned : LibError

pub data GossipError : Type 0 where
  storage connectivity protocol internal : String → GossipError

-- `From<LibError> for GossipError`.
unfoldable pub from_lib_error : LibError → GossipError
from_lib_error (sqlx e) = storage e
from_lib_error (sqlx_migrations e) = storage e
from_lib_error (peer_connection e) = connectivity e
from_lib_error endpoint_startup = connectivity "Failed to startup network endpoint."
from_lib_error (automerge e) = protocol e
from_lib_error (chat_not_found id) = protocol ("Chat not found for ID: " ++ id)
from_lib_error (invalid_peer_id e) = protocol e
from_lib_error lock_poisoned = internal "Internal lock poisoned"
from_lib_error (unexpected e) = internal e

-- `From<anyhow::Error> for GossipError`.
abbrev pub from_anyhow : String → GossipError
from_anyhow e = internal e
