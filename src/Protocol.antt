-- ===== src/Protocol.antt =====
-- The wire protocol (crates/edge-protocol/src/lib.rs): the messages, and the echo protocol that
-- measures the round trip.
pub mod Clipboard
pub mod Roles
pub mod Phone
pub mod Frame
pub mod Heartbeat
