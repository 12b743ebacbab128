-- ===== src/Crypto.antt =====
-- Pinned peers and encrypted packets (crates/edge-crypto/src/lib.rs).
pub mod Pins
pub mod Noise
