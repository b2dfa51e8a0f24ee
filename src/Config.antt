-- ===== src/Config.antt =====
-- src/config/mod.rs: the configuration, read from a lookup of environment variables.
-- The fields of `Config` are grouped by the stretch of `from_lookup` that reads them.
pub mod Parse
pub mod Server
pub mod Ai
pub mod Worker
pub mod Notifications
pub mod Gives
pub mod Bounds
use legaltech_contract_autom.Common.{
  String, Option, none, some, is_some, not, if◌then◌else◌, Result, ok, err, ◌>>=◌,
}
use Parse.{ConfigError, missing, invalid, Lookup}
use Server.{ServerConfig, RateLimits, server_from_lookup, rate_limits_from_lookup}
use Ai.{AiConfig, ai_from_lookup}
use Worker.{WorkerConfig, worker_from_lookup}
use Notifications.{NotificationConfig, notifications_from_lookup}

pub record Config : Type 0 where
  pub server : ServerConfig
  pub limits : RateLimits
  pub ai : AiConfig
  pub worker : WorkerConfig
  pub notifications : NotificationConfig

-- Config::from_lookup: the first variable that is wrong decides the error.
unfoldable pub from_lookup : Lookup → Result ConfigError Config
unfolding server_from_lookup rate_limits_from_lookup ai_from_lookup worker_from_lookup
    notifications_from_lookup
from_lookup lookup = do
  server ← server_from_lookup lookup
  limits ← rate_limits_from_lookup lookup
  ai ← ai_from_lookup lookup
  worker ← worker_from_lookup lookup
  notifications ← notifications_from_lookup lookup
  ok (record {
    server = server;
    limits = limits;
    ai = ai;
    worker = worker;
    notifications = notifications;
  })

-- What production does not start with.
unfoldable pub refuse : Config → Result ConfigError Config
refuse config =
    if not (is_some config.notifications.notification_secret_key)
    then err (missing "NOTIFICATION_SECRET_KEY")
    else if config.notifications.webhook_allow_loopback
    then err (
        invalid "WEBHOOK_ALLOW_LOOPBACK"
          "must not be true in production; this is a test-only escape hatch")
    else ok config

-- Config::load, after the environment is filled from a .env file.
unfoldable pub load : Lookup → Result ConfigError Config
unfolding from_lookup refuse
load lookup = from_lookup lookup >>= refuse
