-- ===== src/Config/Server.antt =====
-- src/config/mod.rs: the database, the listener, sessions, Argon2 and the rate limits.
use legaltech_contract_autom.Common.{
  ℕ, ℤ, pos, negsuc, ◌^◌, ◌-◌, String, Bool, false, not, ◌&&◌, Option, none, some, ltb, leb, Result,
  ok, err, ◌>>=◌,
}
use legaltech_contract_autom.Common.Texts.{trim, is_empty, parse_unsigned}
use legaltech_contract_autom.Config.Parse.{
  ConfigError, missing, Lookup, parsed, parse_u32, parse_i64_or, ensure,
}

pub record ServerConfig : Type 0 where
  pub database_url : String
  pub host : String
  pub port : ℕ
  pub db_max_connections : ℕ
  pub session_lifetime_seconds : ℤ
  pub argon2_m_cost : ℕ
  pub argon2_t_cost : ℕ
  pub argon2_p_cost : ℕ

-- Each limit over its window.
pub record RateLimits : Type 0 where
  pub login_per_minute : ℕ
  pub register_per_hour : ℕ
  pub analyze_per_hour : ℕ
  pub channel_test_per_minute : ℕ
  pub channel_mutation_per_hour : ℕ

unfoldable pub database_url_of : Option String → Result ConfigError String
database_url_of none = err (missing "DATABASE_URL")
database_url_of (some url) =
    ensure (not (is_empty (trim url))) "DATABASE_URL" "must not be empty" url

abbrev pub host_of : Option String → String
host_of none = "0.0.0.0"
host_of (some host) = trim host

unfoldable pub port_of : Option String → Result ConfigError ℕ
port_of none = ok 3000
port_of (some raw) = elim (parse_unsigned (2 ^ 16 - 1) raw) [
  | none ↦ parsed "PORT" "u16 port number" raw none
  | some port ↦ ok port
]

abbrev pub is_positive : ℤ → Bool
is_positive (pos n) = ltb 0 n
is_positive (negsuc n) = false

-- parse_u32 and a range that is checked after it.
unfoldable pub u32_within :
    (test : ℕ → Bool) (reason : String)
    → Lookup
    → (name : String) (default : ℕ) → Result ConfigError ℕ
unfolding parse_u32
u32_within test reason lookup name default = do
  n ← parse_u32 lookup name default
  ensure (test n) name reason n

abbrev pub u32_positive : Lookup → (name : String) (default : ℕ) → Result ConfigError ℕ
u32_positive = u32_within (ltb 0) "must be greater than 0"

abbrev pub between : ℕ → ℕ → ℕ → Bool
between low high n = leb low n && leb n high

unfoldable pub server_from_lookup : Lookup → Result ConfigError ServerConfig
unfolding database_url_of port_of parse_i64_or u32_within
server_from_lookup lookup = do
  database_url ← database_url_of (lookup "DATABASE_URL")
  host ←
      ensure (not (is_empty (host_of (lookup "HOST")))) "HOST" "must not be empty"
        (host_of (lookup "HOST"))
  read_port ← port_of (lookup "PORT")
  port ← ensure (ltb 0 read_port) "PORT" "must be greater than 0" read_port
  db_max_connections ← u32_positive lookup "DATABASE_MAX_CONNECTIONS" 5
  lifetime ← parse_i64_or lookup "SESSION_LIFETIME_SECONDS" (pos 604_800)
  session_lifetime_seconds ←
      ensure (is_positive lifetime) "SESSION_LIFETIME_SECONDS" "must be greater than 0" lifetime
  argon2_m_cost ←
      u32_within (between 8 1_048_576) "must be between 8 and 1048576 KiB" lookup "ARGON2_M_COST"
        19_456
  argon2_t_cost ← u32_within (between 1 100) "must be between 1 and 100" lookup "ARGON2_T_COST" 2
  argon2_p_cost ← u32_within (between 1 64) "must be between 1 and 64" lookup "ARGON2_P_COST" 1
  ok (record {
    database_url = database_url;
    host = host;
    port = port;
    db_max_connections = db_max_connections;
    session_lifetime_seconds = session_lifetime_seconds;
    argon2_m_cost = argon2_m_cost;
    argon2_t_cost = argon2_t_cost;
    argon2_p_cost = argon2_p_cost;
  })

unfoldable pub rate_limits_from_lookup : Lookup → Result ConfigError RateLimits
unfolding u32_within
rate_limits_from_lookup lookup = do
  login ← u32_positive lookup "RATE_LIMIT_LOGIN_PER_MINUTE" 5
  register ← u32_positive lookup "RATE_LIMIT_REGISTER_PER_HOUR" 3
  analyze ← u32_positive lookup "RATE_LIMIT_ANALYZE_PER_HOUR" 10
  channel_test ← u32_positive lookup "RATE_LIMIT_CHANNEL_TEST_PER_MINUTE" 5
  channel_mutation ← u32_positive lookup "RATE_LIMIT_CHANNEL_MUTATION_PER_HOUR" 20
  ok (record {
    login_per_minute = login;
    register_per_hour = register;
    analyze_per_hour = analyze;
    channel_test_per_minute = channel_test;
    channel_mutation_per_hour = channel_mutation;
  })
