-- ===== src/Chat.antt =====
-- The chat protocol (src/protocols/chat.rs and src/protocols/chat/).
pub mod Message
pub mod Framing
pub mod CloseReason
pub mod Connection
pub mod Protocol
