-- ===== src/Ai/Provider.antt =====
-- src/ai/provider.rs and src/ai/schema.rs: what a provider answers, and how it fails.
use Prim.Native.String.{◌++◌ as str_append}
use legaltech_contract_autom.Common.{ℕ, ℤ, String, Bool, true, false, Option, List, Result, show}

pub record AiContractDates : Type 0 where
  pub start_date : Option String
  pub end_date : Option String

pub record AiRisk : Type 0 where
  pub title : String
  pub description : String
  pub risk_level : String
  pub risk_score : ℤ
  pub evidence : String

pub record AiObligation : Type 0 where
  pub title : String
  pub description : String
  pub due_date : Option String
  pub responsible_party : Option String
  pub status : String
  pub risk_level : Option String

pub record AiAnalysis : Type 0 where
  pub contract_dates : AiContractDates
  pub risks : List AiRisk
  pub obligations : List AiObligation

pub data AiError : Type 0 where
  not_configured timeout rate_limited transient : AiError
  permanent : (status : ℕ) → AiError
  malformed_response other : AiError

unfoldable pub is_retryable : AiError → Bool
is_retryable timeout = true
is_retryable rate_limited = true
is_retryable transient = true
is_retryable _ = false

unfoldable pub safe_category : AiError → String
safe_category not_configured = "not_configured"
safe_category timeout = "timeout"
safe_category rate_limited = "rate_limited"
safe_category transient = "transient"
safe_category (permanent status) = str_append "permanent_http_" (show status)
safe_category malformed_response = "malformed_response"
safe_category other = "other"

-- trait AiProvider: `analyze k text` is the answer to the k-th call.
pub record AiProvider : Type 0 where
  pub analyze : ℕ → String → Result AiError AiAnalysis
  pub name : String
  pub model : String
