-- ===== src/Services.antt =====
-- The services behind the HTTP handlers: src/services/.
pub mod Contracts
pub mod Retry
pub mod Summary
pub mod Analysis
