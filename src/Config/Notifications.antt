-- ===== src/Config/Notifications.antt =====
-- src/config/mod.rs: the notification channels and CORS.
use text.Mathlib.Text.{◌==◌ as str_eq}
use legaltech_contract_autom.Common.{
  ℕ, String, Bool, false, not, ◌&&◌, Option, none, some, is_some, leb, Result, ok, List, [], ◌∷◌,
  map, filter, any, ◌>>=◌,
}
use legaltech_contract_autom.Common.Texts.{trim, is_empty, split}
use legaltech_contract_autom.Config.Parse.{ConfigError, Lookup, parse_bool, trimmed, ensure}
use legaltech_contract_autom.Config.Server.{u32_within}
use legaltech_contract_autom.Config.Worker.{u64_positive}

pub record NotificationConfig : Type 0 where
  pub notification_request_timeout_seconds : ℕ
  pub notification_max_retries : ℕ
  pub notification_secret_key : Option String
  pub telegram_bot_token : Option String
  pub telegram_chat_id : Option String
  pub discord_webhook_url : Option String
  pub webhook_url : Option String
  pub webhook_allow_loopback : Bool
  pub cors_allowed_origins : List String

abbrev pub default_cors_origins : List String
default_cors_origins = "http://localhost:8080" ∷ "http://127.0.0.1:8080" ∷ []

unfoldable pub cors_origins_of : Option String → List String
cors_origins_of none = default_cors_origins
cors_origins_of (some raw) = filter (λ s. not (is_empty s)) (map trim (split b',' raw))

unfoldable pub notifications_from_lookup : Lookup → Result ConfigError NotificationConfig
unfolding u64_positive u32_within trimmed parse_bool cors_origins_of
notifications_from_lookup lookup = do
  timeout ← u64_positive lookup "NOTIFICATION_REQUEST_TIMEOUT_SECONDS" 15
  retries ← u32_within (λ n. leb n 20) "must be at most 20" lookup "NOTIFICATION_MAX_RETRIES" 5
  chat_id ←
      ensure
        (not (
          is_some (trimmed lookup "TELEGRAM_BOT_TOKEN")
          && not (is_some (trimmed lookup "TELEGRAM_CHAT_ID"))))
        "TELEGRAM_CHAT_ID" "required when TELEGRAM_BOT_TOKEN is set"
        (trimmed lookup "TELEGRAM_CHAT_ID")
  allow_loopback ← parse_bool lookup "WEBHOOK_ALLOW_LOOPBACK" false
  origins ←
      ensure (not (any (str_eq "*") (cors_origins_of (lookup "CORS_ALLOWED_ORIGINS"))))
        "CORS_ALLOWED_ORIGINS" "wildcard `*` is not allowed"
        (cors_origins_of (lookup "CORS_ALLOWED_ORIGINS"))
  ok (record {
    notification_request_timeout_seconds = timeout;
    notification_max_retries = retries;
    notification_secret_key = trimmed lookup "NOTIFICATION_SECRET_KEY";
    telegram_bot_token = trimmed lookup "TELEGRAM_BOT_TOKEN";
    telegram_chat_id = chat_id;
    discord_webhook_url = trimmed lookup "DISCORD_WEBHOOK_URL";
    webhook_url = trimmed lookup "WEBHOOK_URL";
    webhook_allow_loopback = allow_loopback;
    cors_allowed_origins = origins;
  })
