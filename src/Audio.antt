-- ===== src/Audio.antt =====
-- System audio between the peers: sealed datagrams and the jitter buffer
-- (crates/edge-audio/src/lib.rs), the output ring and its loss reports
-- (crates/edge-audio-output/src/lib.rs).
pub mod Packet
pub mod Jitter
pub mod Ring
pub mod Loss
