-- ===== src/Examples.antt =====
-- The theorems at concrete inputs, part by part.
mod Data
mod Lifecycle
mod Worker
mod Notifications
mod Reminders
mod Services
mod Middleware
mod Auth
mod Api
mod Redact
