-- ===== src/Connector.antt =====
-- The client library, crates/parler-connector/src: the decisions that need no connection.
pub mod Attention
