-- ===== src/Notification.antt =====
-- The receiver's shared notification history (apps/edge-receiver-linux/src/notification_hub.rs).
pub mod Equality
pub mod Validation
pub mod Store
pub mod Hub
pub mod Link
pub mod PhoneContent
pub mod Sessions
pub mod Session
