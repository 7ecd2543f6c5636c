-- ===== src/Server.antt =====
-- crates/parler-hub/src/server.rs: what the hub does before and around its store.
pub mod Frames
pub mod State
pub mod Bytes
pub mod RoomRequests
pub mod WorkRequests
pub mod RecordRequests
pub mod Sending
pub mod Uploads
pub mod Hello
pub mod FrameBounds
pub mod Dispatch
pub mod Socket
pub mod Gate
pub mod Windows
pub mod Janitor
pub mod Waitlist
