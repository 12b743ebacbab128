-- ===== src/Lib.antt =====
-- MouseWithoutBorders shares a mouse, a keyboard, the clipboard and system audio between PCs, and
-- clipboard, notifications and audio with phones. Two programs, apps/edge-controller-win and
-- apps/edge-receiver-linux, hold an encrypted session and exchange the frames of
-- crates/edge-protocol. Modelled are the crates with the logic that both share, and the receiver's
-- notification history with its sessions and phones.
--
-- - Base: shared names and lemmas; Base/OrderedMap is the standard library's `BTreeMap` with u64
--   keys, Base/Bytes fixed-width integers, Base/Texts the characters and bytes of a text,
--   Base/Outcome Rust's `Result` with `?`.
-- - Protocol: the messages of crates/edge-protocol/src/lib.rs, type by type, and `HeartbeatPing`
--   (`outgoing`, `incoming`, `round_trip`) in Protocol/Heartbeat.
-- - Clipboard: crates/edge-clipboard/src/lib.rs. Image is `CanonicalImage` and `ClipboardItem`,
--   Schedule `ImageTransferSchedule`, Tracker `ClipboardChangeTracker`, Outgoing
--   `OutgoingClipboardTransfer::next_event`, Incoming `IncomingClipboardTransfer::handle` with
--   `start`, `chunk`, `finish`, `cancel` and `expire`. Transfer drives the two against each other,
--   as a session does.
-- - Runtime: crates/edge-runtime/src/lib.rs (Liveness is `LivenessTracker`, Pairing
--   `resolve_pairing` and `InputEpochGate`) and crates/edge-runtime/src/role.rs (Role is the first
--   choice of a controller and the committed role, Role/Coordinator `RoleCoordinator`,
--   Role/Validation the listener's `validate_prepare` and `validate_commit`).
-- - Audio: crates/edge-audio/src/lib.rs (Packet is `PacketCipher` and `AudioPacket`, Jitter
--   `JitterBuffer`) and crates/edge-audio-output/src/lib.rs (Ring is `AudioRing`, Loss
--   `AudioLossReporter`).
-- - Keymap: the two tables of crates/edge-keymap/src/lib.rs.
-- - Crypto: crates/edge-crypto/src/lib.rs (Pins is `PinStore`, Noise the packets of
--   `NoiseSession`: `seal_packet` and `read_packet`).
-- - Notification: apps/edge-receiver-linux/src/notification_hub.rs. Validation is `validate_key`
--   and `validate_content`; Store the durable history (`Store::apply`, `queue_local`, `record`,
--   `view`); Hub `NotificationHub` as far as it decides on the history (`local`, `link`,
--   `publish`); Link `NotificationLink` (`next`, `receive`); Sessions any interleaving of the
--   sessions that share a hub; Session `SessionLink` (`enqueue`, `ByteBudget`, the worker);
--   PhoneContent what a phone's notification becomes (`desktop_notification` of
--   apps/edge-receiver-linux/src/notifications.rs).
-- - Phone: Pairing is `PairingWindow` of apps/edge-receiver-linux/src/phone_pairing.rs, Projection
--   `PhoneProjections` of apps/edge-receiver-linux/src/phone_projection.rs.
-- - Examples: the theorems at concrete inputs.
--
-- A method that changes its object returns the new object with its result. Integers are natural
-- numbers, with wrapping, saturation and overflow checks written out where the code has them; usize
-- has 64 bits. Instants and durations are numbers of nanoseconds, and `Instant::now()` is an
-- argument. Floating-point fields of messages are bit patterns that are only carried.
--
-- Other libraries are parameters: the record `Libraries` (Clipboard/Image) stands for the crates
-- image and sha2 and the UTF-8 conversions, with `PngLaws` for what PNG documents; `Aead`
-- (Audio/Packet) for chacha20poly1305, with `AeadLaws`; `Transport` (Crypto/Noise) for snow, with
-- `TransportLaws`; `writes` (Notification/Hub) tells whether the history can be written; `Desktop`
-- (Phone/Projection) is the daemon, the cache file and SHA-256. Maps keyed by texts are association
-- lists.
--
-- Clipboard/Transfer runs on fuel, one unit for each event. `IsEnough` asks for the size of the
-- payload and three chunks of 16384 bytes more: the chunks, rounded up, the start, the end, and the
-- round that finds no event. The transfer is proved to end with that. `drain`
-- (Notification/Link/Sending) takes one unit for each call of `next`: one more than there are frames.
--
-- Not modelled: MessagePack and TOML, sockets, files, threads and the asynchronous session loops of
-- the two programs; the Noise handshake and key generation; the capture and injection of input, audio
-- devices, the desktop user interfaces; floating-point computations (PCM samples, resampling,
-- geometry of screens); the receiver's notification bridge and phone source, its phone and
-- clipboard hubs.
pub mod Base
pub mod Protocol
pub mod Clipboard
pub mod Runtime
pub mod Audio
pub mod Keymap
pub mod Crypto
pub mod Notification
pub mod Phone
pub mod Examples
