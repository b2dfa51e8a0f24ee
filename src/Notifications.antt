-- ===== src/Notifications.antt =====
-- The notification channels of the backend: src/notifications/.
pub mod Channel
pub mod Ssrf
pub mod Config
pub mod Senders
pub mod Secrets
pub mod Store
