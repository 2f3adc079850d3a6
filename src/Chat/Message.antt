-- ===== src/Chat/Message.antt =====
-- The wire messages of src/protocols/chat/message.rs. `Bytes` is a list of byte values.
use tryst_core_portfolio.Prelude.{ℕ, List, Option}

pub data SyncMessage : Type 0 where
  sync_message : List ℕ → SyncMessage

pub data ProtoMessage : Type 0 where
  sync : Option SyncMessage → ProtoMessage
