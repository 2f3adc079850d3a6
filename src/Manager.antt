-- ===== src/Manager.antt =====
-- The chat manager actor of src/manager.rs.
--
-- The CRDT document behind `ChatRepository` is an interface here, `Repository`: its operations
-- return the new document with their result. The connection is the session of
-- `Chat.Connection.Tasks`. What the actor calls on the subscriber, and what it answers to its
-- callers, are logs, newest first. `is_open` says which channels still take messages.
pub mod Repository
pub mod Actor
pub mod Loop
pub mod Storage
pub mod Exchange
pub mod Calls
