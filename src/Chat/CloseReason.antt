-- ===== src/Chat/CloseReason.antt =====
-- `ConnectionCloseReason` of src/protocols/chat/protocol_handler.rs and its codes on the wire.
pub mod Codes
use Prim.Native.String.{String}
use tryst_core_portfolio.Prelude.{ℕ, Result, ok, err, ◌==◌, if◌then◌else◌}

pub data ConnectionCloseReason : Type 0 where
  normal invalid_open_message stream_read_failed stream_write_failed : ConnectionCloseReason

pub data InvalidConnectionCloseReasonCode : Type 0 where
  invalid_code : ℕ → InvalidConnectionCloseReasonCode

-- `to_code_reason`; a `VarInt` is the number that `into_inner` gives.
unfoldable pub to_code_reason : ConnectionCloseReason → ℕ × String
to_code_reason normal = (0, "Normal closure")
to_code_reason invalid_open_message = (1001, "Invalid or unexpected open message received")
to_code_reason stream_read_failed = (1002, "Stream read operation failed")
to_code_reason stream_write_failed = (1003, "Stream write operation failed")

-- `TryFrom<VarInt>`.
unfoldable pub try_from : ℕ → Result ConnectionCloseReason InvalidConnectionCloseReasonCode
try_from value =
    if value == 0
    then ok normal
    else if value == 1001
    then ok invalid_open_message
    else if value == 1002
    then ok stream_read_failed
    else if value == 1003
    then ok stream_write_failed
    else err (invalid_code value)
