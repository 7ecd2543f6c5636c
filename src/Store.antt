-- ===== src/Store.antt =====
-- The hub's durable store, crates/parler-hub/src/store.rs.
pub mod Tables
pub mod Presence
pub mod Rooms
pub mod Messages
pub mod Service
pub mod Invites
pub mod Tokens
pub mod Blobs
pub mod Facts
pub mod Directory
pub mod Retention
pub mod Stats
