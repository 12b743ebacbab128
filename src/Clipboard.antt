-- ===== src/Clipboard.antt =====
-- Clipboard sharing (crates/edge-clipboard/src/lib.rs).
pub mod Image
pub mod Schedule
pub mod Tracker
pub mod Outgoing
pub mod Incoming
pub mod Transfer
