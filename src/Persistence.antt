-- ===== src/Persistence.antt =====
-- The persistence layer of src/persistence.rs.
pub mod Snapshots
pub mod Sync
pub mod Schema
pub mod Messages
pub mod ChatList
