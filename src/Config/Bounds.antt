-- ===== src/Config/Bounds.antt =====
-- src/config/mod.rs: what a configuration that is accepted guarantees.
use text.Mathlib.Text.{◌==◌ as str_eq}
use legaltech_contract_autom.Common.{
  pos, ◌≤◌, ◌<◌, String, true, false, not, ◌&&◌, ◌||◌, Option, none, some, is_some, ltb, leb, any,
  ◌≡◌, ok, >>=-eq-ok, arith, Bool-cases, inl, inr,
}
use mathlib.Core.Path.{subst}
use legaltech_contract_autom.Common.Texts.{is_empty, trim}
use legaltech_contract_autom.Config.{Config, from_lookup, load, refuse}
use legaltech_contract_autom.Config.Parse.{
  Lookup, parse_u32, parse_u64, parse_usize, parse_bool, trimmed, parse_i64_or,
}
use legaltech_contract_autom.Config.Server.{
  ServerConfig, RateLimits, server_from_lookup, rate_limits_from_lookup, database_url_of, port_of,
  between, is_positive, host_of,
}
use legaltech_contract_autom.Config.Ai.{AiConfig, ai_from_lookup}
use legaltech_contract_autom.Config.Worker.{WorkerConfig, worker_from_lookup}
use legaltech_contract_autom.Config.Notifications.{
  NotificationConfig, notifications_from_lookup, cors_origins_of,
}
use legaltech_contract_autom.Config.Gives.{
  Gives, Gives-bind, Gives-ok, Gives-any, Gives-ensure, Gives-u32_within, Gives-u64_positive,
}

Gives-database_url :
    (o : Option String) → Gives (λ url. not (is_empty (trim url)) ≡ true) (database_url_of o)
unfolding database_url_of
Gives-database_url none = record { gives = λ a e. absurd (cc) }
Gives-database_url (some url) =
    Gives-ensure (λ u. not (is_empty (trim u))) "DATABASE_URL" "must not be empty" url

pub record ServerIsValid (c : ServerConfig) : Type 0 where
  pub database_url : is_empty (trim c.database_url) ≡ false
  pub host : is_empty c.host ≡ false
  pub port : 0 < c.port
  pub connections : 0 < c.db_max_connections
  pub lifetime : is_positive c.session_lifetime_seconds ≡ true
  pub m_cost : (8 ≤ c.argon2_m_cost) × (c.argon2_m_cost ≤ 1_048_576)
  pub t_cost : (1 ≤ c.argon2_t_cost) × (c.argon2_t_cost ≤ 100)
  pub p_cost : (1 ≤ c.argon2_p_cost) × (c.argon2_p_cost ≤ 64)

server-IsValid : (lookup : Lookup) → Gives ServerIsValid (server_from_lookup lookup)
unfolding server_from_lookup
server-IsValid lookup = Gives-bind _ _ _ (Gives-database_url (lookup "DATABASE_URL")) λ url u.
    Gives-bind _ _ _
      (Gives-ensure (λ h. not (is_empty h)) "HOST" "must not be empty" (host_of (lookup "HOST")))
      λ host h. Gives-bind _ _ _ (Gives-any (port_of (lookup "PORT"))) λ read_port _.
        Gives-bind _ _ _ (Gives-ensure (ltb 0) "PORT" "must be greater than 0" read_port) λ port p.
          Gives-bind _ _ _ (Gives-u32_within (ltb 0) _ lookup "DATABASE_MAX_CONNECTIONS" 5)
            λ connections c.
              Gives-bind _ _ _
                (Gives-any (parse_i64_or lookup "SESSION_LIFETIME_SECONDS" (pos 604_800)))
                λ read_lifetime _.
                  Gives-bind _ _ _
                    (Gives-ensure is_positive "SESSION_LIFETIME_SECONDS" "must be greater than 0"
                      read_lifetime)
                    λ lifetime l.
                      Gives-bind _ _ _
                        (Gives-u32_within (between 8 1_048_576) _ lookup "ARGON2_M_COST" 19_456)
                        λ m_cost m.
                          Gives-bind _ _ _
                            (Gives-u32_within (between 1 100) _ lookup "ARGON2_T_COST" 2)
                            λ t_cost t.
                              Gives-bind _ _ _
                                (Gives-u32_within (between 1 64) _ lookup "ARGON2_P_COST" 1)
                                λ p_cost k. Gives-ok _ (record {
                                  database_url = ground (arith, u);
                                  host = ground (arith, h);
                                  port = ground (arith, p);
                                  connections = ground (arith, c);
                                  lifetime = l;
                                  m_cost = ground (arith, m);
                                  t_cost = ground (arith, t);
                                  p_cost = ground (arith, k);
                                })

pub record LimitsAreValid (l : RateLimits) : Type 0 where
  pub login : 0 < l.login_per_minute
  pub register : 0 < l.register_per_hour
  pub analyze : 0 < l.analyze_per_hour
  pub channel_test : 0 < l.channel_test_per_minute
  pub channel_mutation : 0 < l.channel_mutation_per_hour

limits-AreValid : (lookup : Lookup) → Gives LimitsAreValid (rate_limits_from_lookup lookup)
unfolding rate_limits_from_lookup
limits-AreValid lookup =
    Gives-bind _ _ _ (Gives-u32_within (ltb 0) _ lookup "RATE_LIMIT_LOGIN_PER_MINUTE" 5) λ a ha.
      Gives-bind _ _ _ (Gives-u32_within (ltb 0) _ lookup "RATE_LIMIT_REGISTER_PER_HOUR" 3) λ b hb.
        Gives-bind _ _ _ (Gives-u32_within (ltb 0) _ lookup "RATE_LIMIT_ANALYZE_PER_HOUR" 10)
          λ c hc.
            Gives-bind _ _ _
              (Gives-u32_within (ltb 0) _ lookup "RATE_LIMIT_CHANNEL_TEST_PER_MINUTE" 5)
              λ d hd.
                Gives-bind _ _ _
                  (Gives-u32_within (ltb 0) _ lookup "RATE_LIMIT_CHANNEL_MUTATION_PER_HOUR" 20)
                  λ e he. Gives-ok _ (record {
                    login = ground (arith, ha);
                    register = ground (arith, hb);
                    analyze = ground (arith, hc);
                    channel_test = ground (arith, hd);
                    channel_mutation = ground (arith, he);
                  })

pub record AiIsValid (c : AiConfig) : Type 0 where
  pub timeout : 0 < c.ai_timeout_seconds
  pub chars : 0 < c.ai_max_input_chars
  pub retries : c.ai_max_retries ≤ 10

ai-IsValid : (lookup : Lookup) → Gives AiIsValid (ai_from_lookup lookup)
unfolding ai_from_lookup
ai-IsValid lookup = Gives-bind _ _ _ (Gives-any (parse_u64 lookup "AI_TIMEOUT_SECONDS" 60)) λ a _.
    Gives-bind _ _ _ (Gives-ensure (ltb 0) "AI_TIMEOUT_SECONDS" _ a) λ timeout ht.
      Gives-bind _ _ _ (Gives-any (parse_usize lookup "AI_MAX_INPUT_CHARS" 100_000)) λ b _.
        Gives-bind _ _ _ (Gives-ensure (ltb 0) "AI_MAX_INPUT_CHARS" _ b) λ chars hc.
          Gives-bind _ _ _ (Gives-any (parse_u32 lookup "AI_MAX_RETRIES" 2)) λ c _.
            Gives-bind _ _ _ (Gives-ensure (λ n. leb n 10) "AI_MAX_RETRIES" _ c) λ retries hr.
              Gives-ok _ (record {
                timeout = ground (arith, ht);
                chars = ground (arith, hc);
                retries = ground (arith, hr);
              })

pub record WorkerIsValid (c : WorkerConfig) : Type 0 where
  pub poll_interval : 0 < c.worker_poll_interval_seconds
  pub batch : (1 ≤ c.worker_batch_size) × (c.worker_batch_size ≤ 10_000)
  pub concurrency : (1 ≤ c.worker_max_concurrency) × (c.worker_max_concurrency ≤ 1024)
  pub claim_timeout : 0 < c.worker_claim_timeout_seconds
  pub shutdown_timeout : 0 < c.worker_shutdown_timeout_seconds

worker-IsValid : (lookup : Lookup) → Gives WorkerIsValid (worker_from_lookup lookup)
unfolding worker_from_lookup
worker-IsValid lookup =
    Gives-bind _ _ _ (Gives-any (parse_bool lookup "WORKER_ENABLED" true)) λ enabled _.
      Gives-bind _ _ _ (Gives-u64_positive lookup "WORKER_POLL_INTERVAL_SECONDS" 10) λ a ha.
        Gives-bind _ _ _ (Gives-u32_within (between 1 10_000) _ lookup "WORKER_BATCH_SIZE" 50)
          λ b hb.
            Gives-bind _ _ _ (Gives-u32_within (between 1 1024) _ lookup "WORKER_MAX_CONCURRENCY" 8)
              λ c hc.
                Gives-bind _ _ _ (Gives-u64_positive lookup "WORKER_CLAIM_TIMEOUT_SECONDS" 300)
                  λ d hd.
                    Gives-bind _ _ _
                      (Gives-u64_positive lookup "WORKER_SHUTDOWN_TIMEOUT_SECONDS" 30)
                      λ e he. Gives-ok _ (record {
                        poll_interval = ground (arith, ha);
                        batch = ground (arith, hb);
                        concurrency = ground (arith, hc);
                        claim_timeout = ground (arith, hd);
                        shutdown_timeout = ground (arith, he);
                      })

-- No wildcard among the origins, and a Telegram token has its chat.
pub record NotificationsAreValid (c : NotificationConfig) : Type 0 where
  pub timeout : 0 < c.notification_request_timeout_seconds
  pub retries : c.notification_max_retries ≤ 20
  pub chat : (not (is_some c.telegram_bot_token) || is_some c.telegram_chat_id) ≡ true
  pub origins : any (str_eq "*") c.cors_allowed_origins ≡ false

notifications-AreValid :
    (lookup : Lookup) → Gives NotificationsAreValid (notifications_from_lookup lookup)
unfolding notifications_from_lookup
notifications-AreValid lookup =
    Gives-bind _ _ _ (Gives-u64_positive lookup "NOTIFICATION_REQUEST_TIMEOUT_SECONDS" 15) λ a ha.
      Gives-bind _ _ _ (Gives-u32_within (λ n. leb n 20) _ lookup "NOTIFICATION_MAX_RETRIES" 5)
        λ b hb.
          Gives-bind _ _ _
            (Gives-ensure
              (λ c. not (is_some (trimmed lookup "TELEGRAM_BOT_TOKEN") && not (is_some c)))
              "TELEGRAM_CHAT_ID" _ (trimmed lookup "TELEGRAM_CHAT_ID"))
            λ chat hc.
              Gives-bind _ _ _ (Gives-any (parse_bool lookup "WEBHOOK_ALLOW_LOOPBACK" false))
                λ loopback _.
                  Gives-bind _ _ _
                    (Gives-ensure (λ o. not (any (str_eq "*") o)) "CORS_ALLOWED_ORIGINS" _
                      (cors_origins_of (lookup "CORS_ALLOWED_ORIGINS")))
                    λ origins ho. Gives-ok _ (record {
                      timeout = ground (arith, ha);
                      retries = ground (arith, hb);
                      chat = ground (arith, hc);
                      origins = ground (arith, ho);
                    })

pub record ConfigIsValid (c : Config) : Type 0 where
  pub server : ServerIsValid c.server
  pub limits : LimitsAreValid c.limits
  pub ai : AiIsValid c.ai
  pub worker : WorkerIsValid c.worker
  pub notifications : NotificationsAreValid c.notifications

from_lookup-IsValid : (lookup : Lookup) → Gives ConfigIsValid (from_lookup lookup)
unfolding from_lookup
from_lookup-IsValid lookup = Gives-bind _ _ _ (server-IsValid lookup) λ a ha.
    Gives-bind _ _ _ (limits-AreValid lookup) λ b hb. Gives-bind _ _ _ (ai-IsValid lookup) λ c hc.
      Gives-bind _ _ _ (worker-IsValid lookup) λ d hd.
        Gives-bind _ _ _ (notifications-AreValid lookup) λ e he.
          Gives-ok _ (record { server = ha; limits = hb; ai = hc; worker = hd; notifications = he })

refuse-ok :
    (c : Config) {d : Config}
    → refuse c ≡ ok d
    → (c ≡ d)
      × (is_some c.notifications.notification_secret_key ≡ true)
      × (c.notifications.webhook_allow_loopback ≡ false)
unfolding refuse
refuse-ok c {d} e = elim (Bool-cases (is_some c.notifications.notification_secret_key)) [
  | inr n ↦ let e' = rw n at e in absurd (cc)
  | inl y ↦ elim (Bool-cases c.notifications.webhook_allow_loopback) [
    | inl l ↦ let e' = rw (y, l) at e in absurd (cc)
    | inr l ↦ let e' = rw (y, l) at e in let same : c ≡ d = cc in (same, y, l)
  ]
]

-- Whatever the environment holds, a configuration that `load` returns is within every bound that the
-- loader documents: a database, a host and a port, positive limits and timeouts, ranges for Argon2,
-- the worker and the retries, a chat for a Telegram token and no wildcard origin. It has a key for
-- the channels' secrets, and webhooks to loopback addresses are off.
pub load-IsValid :
    (lookup : Lookup) (config : Config)
    → load lookup ≡ ok config
    → ConfigIsValid config
      × (is_some config.notifications.notification_secret_key ≡ true)
      × (config.notifications.webhook_allow_loopback ≡ false)
unfolding load
load-IsValid lookup config e =
    let q = >>=-eq-ok {A = Config} (from_lookup lookup) refuse e in
    let r = refuse-ok q.0 q.2 in
    subst
      (λ (c : Config).
        ConfigIsValid c
        × (is_some c.notifications.notification_secret_key ≡ true)
        × (c.notifications.webhook_allow_loopback ≡ false))
      (r.0) ((from_lookup-IsValid lookup).gives q.0 q.1, r.1, r.2)
