-- ===== src/Protocol.antt =====
-- The wire contract, crates/parler-protocol/src: the names of kinds and states, message parts and
-- the typed references that ride in them.
pub mod RoomKind
pub mod Visibility
pub mod Attention
pub mod TaskStatus
pub mod Spelling
pub mod Mentions
pub mod Parts
pub mod Cards
pub mod Tokens
pub mod Subjects
