-- ===== src/Examples/Middleware.antt =====
-- The rate limiters and the configuration at concrete inputs.
use text.Mathlib.Text.{◌==◌ as str_eq}
use native.Mathlib.Decide.{ℕ_discrete}
use legaltech_contract_autom.Common.{
  ℕ, ◌≡◌, refl, pos, true, false, none, some, is_some, if◌then◌else◌, List, [], ◌∷◌, ok, arith,
}
use legaltech_contract_autom.Common.Texts.{trim, parse_unsigned}
use legaltech_contract_autom.Middleware.RateLimit.{
  new, allowed, limited, check, clean, reject, admit,
}
use legaltech_contract_autom.Middleware.RateLimit.Entries
use legaltech_contract_autom.Middleware.RateLimit.Refinement.{run, run_ideal, run-ideal}
use legaltech_contract_autom.Middleware.RateLimit.Window.{Fits, granted, granted-Fits}
use legaltech_contract_autom.Config.{Config, load, from_lookup, refuse}
use legaltech_contract_autom.Config.Parse.{Lookup}
use legaltech_contract_autom.Config.Bounds.{ConfigIsValid, load-IsValid}
use legaltech_contract_autom.State.{limiters, IsCalm, limiters-IsCalm}

-- Two keys at a limit of two in a window of 10; the third call of key 1 comes too early.
abbrev calls : List (ℕ × ℕ)
calls = (10, 1) ∷ (12, 1) ∷ (13, 2) ∷ (15, 1) ∷ (21, 1) ∷ []

run_calls : run ℕ_discrete calls (new 2 10) ≡ allowed ∷ allowed ∷ allowed ∷ limited 5 ∷ allowed ∷ []
unfolding run new check clean admit reject Entries.entry Entries.set ℕ_discrete
run_calls = refl

run-ideal_example : run ℕ_discrete calls (new 2 10) ≡ run_ideal ℕ_discrete 2 10 calls []
run-ideal_example =
    run-ideal ℕ_discrete 2 10 10 calls (omega arith) (omega arith)
      (omega arith, (omega arith, (omega arith, (omega arith, (omega arith, tt)))))

granted-Fits_example : Fits 2 10 (granted ℕ_discrete 1 calls (run ℕ_discrete calls (new 2 10)))
granted-Fits_example =
    granted-Fits ℕ_discrete 2 10 10 calls 1 (omega arith) (omega arith)
      (omega arith, (omega arith, (omega arith, (omega arith, (omega arith, tt)))))

abbrev lookup : Lookup
lookup name =
    if str_eq name "DATABASE_URL"
    then some "postgres://localhost/contracts"
    else if str_eq name "NOTIFICATION_SECRET_KEY"
    then some "MDEyMzQ1Njc4OWFiY2RlZjAxMjM0NTY3ODlhYmNkZWY="
    else if str_eq name "RATE_LIMIT_LOGIN_PER_MINUTE"
    then some "7"
    else none

abbrev config : Config
config = record {
  server = record {
    database_url = "postgres://localhost/contracts";
    host = "0.0.0.0";
    port = 3000;
    db_max_connections = 5;
    session_lifetime_seconds = pos 604_800;
    argon2_m_cost = 19_456;
    argon2_t_cost = 2;
    argon2_p_cost = 1;
  };
  limits = record {
    login_per_minute = 7;
    register_per_hour = 3;
    analyze_per_hour = 10;
    channel_test_per_minute = 5;
    channel_mutation_per_hour = 20;
  };
  ai = record {
    ai_base_url = "https://api.openai.com";
    ai_api_key = none;
    ai_model = "gpt-4o-mini";
    ai_timeout_seconds = 60;
    ai_max_input_chars = 100_000;
    ai_max_retries = 2;
  };
  worker = record {
    worker_enabled = true;
    worker_poll_interval_seconds = 10;
    worker_batch_size = 50;
    worker_max_concurrency = 8;
    worker_claim_timeout_seconds = 300;
    worker_shutdown_timeout_seconds = 30;
  };
  notifications = record {
    notification_request_timeout_seconds = 15;
    notification_max_retries = 5;
    notification_secret_key = some "MDEyMzQ1Njc4OWFiY2RlZjAxMjM0NTY3ODlhYmNkZWY=";
    telegram_bot_token = none;
    telegram_chat_id = none;
    discord_webhook_url = none;
    webhook_url = none;
    webhook_allow_loopback = false;
    cors_allowed_origins = "http://localhost:8080" ∷ "http://127.0.0.1:8080" ∷ [];
  };
}

load_config : load lookup ≡ ok config
unfolding load from_lookup refuse trim parse_unsigned
load_config = refl

load-IsValid_example :
    ConfigIsValid config
    × (is_some config.notifications.notification_secret_key ≡ true)
    × (config.notifications.webhook_allow_loopback ≡ false)
load-IsValid_example = load-IsValid lookup config load_config

abbrev hits : List (ℕ × ℕ)
hits = (4_000_000_000_000, 1) ∷ (4_000_000_000_001, 1) ∷ []

limiters-IsCalm_example :
    IsCalm hits (limiters config.limits).login_rate_limiter
    × IsCalm hits (limiters config.limits).register_rate_limiter
    × IsCalm hits (limiters config.limits).analyze_rate_limiter
    × IsCalm hits (limiters config.limits).channel_test_rate_limiter
    × IsCalm hits (limiters config.limits).channel_mutation_rate_limiter
limiters-IsCalm_example =
    limiters-IsCalm lookup config 4_000_000_000_000 hits load_config (omega arith)
      (omega arith, (omega arith, tt))
