-- ===== src/Config/Ai.antt =====
-- src/config/mod.rs: the AI provider.
use legaltech_contract_autom.Common.{ℕ, String, Option, none, some, ltb, leb, Result, ok, ◌>>=◌}
use legaltech_contract_autom.Config.Parse.{
  ConfigError, Lookup, parse_u32, parse_u64, parse_usize, trimmed, ensure,
}

pub record AiConfig : Type 0 where
  pub ai_base_url : String
  pub ai_api_key : Option String
  pub ai_model : String
  pub ai_timeout_seconds : ℕ
  pub ai_max_input_chars : ℕ
  pub ai_max_retries : ℕ

abbrev pub or_else : Option String → String → String
or_else none default = default
or_else (some v) default = v

unfoldable pub ai_from_lookup : Lookup → Result ConfigError AiConfig
unfolding trimmed parse_u64 parse_usize parse_u32
ai_from_lookup lookup = do
  read_timeout ← parse_u64 lookup "AI_TIMEOUT_SECONDS" 60
  timeout ← ensure (ltb 0 read_timeout) "AI_TIMEOUT_SECONDS" "must be greater than 0" read_timeout
  read_chars ← parse_usize lookup "AI_MAX_INPUT_CHARS" 100_000
  chars ← ensure (ltb 0 read_chars) "AI_MAX_INPUT_CHARS" "must be greater than 0" read_chars
  read_retries ← parse_u32 lookup "AI_MAX_RETRIES" 2
  retries ← ensure (leb read_retries 10) "AI_MAX_RETRIES" "must be at most 10" read_retries
  ok (record {
    ai_base_url = or_else (trimmed lookup "AI_BASE_URL") "https://api.openai.com";
    ai_api_key = trimmed lookup "AI_API_KEY";
    ai_model = or_else (trimmed lookup "AI_MODEL") "gpt-4o-mini";
    ai_timeout_seconds = timeout;
    ai_max_input_chars = chars;
    ai_max_retries = retries;
  })
