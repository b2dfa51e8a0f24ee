-- ===== src/Config/Worker.antt =====
-- src/config/mod.rs: the worker.
use legaltech_contract_autom.Common.{ℕ, String, Bool, true, ltb, Result, ok, ◌>>=◌}
use legaltech_contract_autom.Config.Parse.{ConfigError, Lookup, parse_u64, parse_bool, ensure}
use legaltech_contract_autom.Config.Server.{u32_within, between}

pub record WorkerConfig : Type 0 where
  pub worker_enabled : Bool
  pub worker_poll_interval_seconds : ℕ
  pub worker_batch_size : ℕ
  pub worker_max_concurrency : ℕ
  pub worker_claim_timeout_seconds : ℕ
  pub worker_shutdown_timeout_seconds : ℕ

-- parse_u64 and the test that it is not 0.
unfoldable pub u64_positive : Lookup → (name : String) (default : ℕ) → Result ConfigError ℕ
unfolding parse_u64
u64_positive lookup name default = do
  n ← parse_u64 lookup name default
  ensure (ltb 0 n) name "must be greater than 0" n

unfoldable pub worker_from_lookup : Lookup → Result ConfigError WorkerConfig
unfolding parse_bool u64_positive u32_within
worker_from_lookup lookup = do
  enabled ← parse_bool lookup "WORKER_ENABLED" true
  poll_interval ← u64_positive lookup "WORKER_POLL_INTERVAL_SECONDS" 10
  batch_size ←
      u32_within (between 1 10_000) "must be between 1 and 10000" lookup "WORKER_BATCH_SIZE" 50
  max_concurrency ←
      u32_within (between 1 1024) "must be between 1 and 1024" lookup "WORKER_MAX_CONCURRENCY" 8
  claim_timeout ← u64_positive lookup "WORKER_CLAIM_TIMEOUT_SECONDS" 300
  shutdown_timeout ← u64_positive lookup "WORKER_SHUTDOWN_TIMEOUT_SECONDS" 30
  ok (record {
    worker_enabled = enabled;
    worker_poll_interval_seconds = poll_interval;
    worker_batch_size = batch_size;
    worker_max_concurrency = max_concurrency;
    worker_claim_timeout_seconds = claim_timeout;
    worker_shutdown_timeout_seconds = shutdown_timeout;
  })
