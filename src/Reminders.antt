-- ===== src/Reminders.antt =====
-- The reminders component of the backend: src/reminders/.
pub mod Types
pub mod Dates
pub mod Service
pub mod RoundTrip
