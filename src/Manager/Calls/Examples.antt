-- ===== src/Manager/Calls/Examples.antt =====
-- `send_message` to a manager that is gone.
use tryst_core_portfolio.Prelude.{ℕ, ◌≡◌, refl, Result, err}
use Prim.Native.String.{String}
use tryst_core_portfolio.Failure.{LibError, GossipError, internal}
use tryst_core_portfolio.Chat.Connection.Numbers.{number_order}
use tryst_core_portfolio.Manager.Calls.{send_message}

abbrev closed : Result (Unit {0}) String
closed = err "closed"

abbrev no_answer : Result (Result ℕ LibError) String
no_answer = err "dropped"

abbrev failure : Result ℕ GossipError
failure =
    err (internal "ChatManager: Failed to send InMessage::Single. Channel closed. Err: closed")

gone_manager : send_message closed no_answer ≡ failure
unfolding send_message
gone_manager = refl
