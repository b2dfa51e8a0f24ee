-- ===== src/Worker.antt =====
-- The worker component of the backend: src/worker/.
pub mod Claim
pub mod Outcome
pub mod Recovery
pub mod Poller
