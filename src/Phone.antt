-- ===== src/Phone.antt =====
-- The phones of a receiver (apps/edge-receiver-linux/src/phone_pairing.rs and phone_projection.rs).
pub mod Pairing
pub mod Projection
