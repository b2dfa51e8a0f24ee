-- ===== src/Auth.antt =====
-- src/auth/: accounts, sessions and the credentials of a request.
pub mod Validation
pub mod Token
pub mod Extractor
pub mod Handlers
pub mod Requests
