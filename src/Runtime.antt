-- ===== src/Runtime.antt =====
-- The session runtime (crates/edge-runtime/src): liveness, pairing, the input gate, and the
-- assignment of the controller's role.
pub mod Liveness
pub mod Pairing
pub mod Role
