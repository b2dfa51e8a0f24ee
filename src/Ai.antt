-- ===== src/Ai.antt =====
-- The analysis of a contract by a language model: src/ai/.
pub mod Provider
pub mod Validation
pub mod Evidence
