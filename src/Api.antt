-- ===== src/Api.antt =====
-- src/api/: the handlers behind the router.
pub mod Requests
pub mod Blocks
pub mod Channels
pub mod Contracts
pub mod Dashboard
pub mod Reminders
