-- ===== src/Services/Analysis.antt =====
-- src/services/analysis.rs: one analysis of a contract, from the claim to the stored result.
-- `parse_date`, `is_alphanumeric` and `to_lowercase` are those of Ai/Validation and Ai/Evidence.
pub mod Stored
pub mod Atomic
use Prim.Native.Char.{Char}
use Prim.Native.String.{len, ◌++◌ as str_append}
use legaltech_contract_autom.Common.{
  ℕ, String, Bool, true, false, not, Option, none, some, if◌then◌else◌, ltb, leb, List, [], ◌∷◌,
  length, Result, ok, err, show,
}
use legaltech_contract_autom.Errors.{
  AppError, validation, not_found, conflict, analysis_in_progress, database, external_service,
}
use legaltech_contract_autom.Db.Models.{Contract}
use legaltech_contract_autom.Db.Session.{
  Db, DbError, statement, transaction, pure, throw, map_err, lifted, after, ignore, ◌>>=◌, ◌>>◌,
}
use legaltech_contract_autom.Db.Contracts.{
  AnalysisColumns, find_contract_for_user, claim_analysis, mark_analysis_failed, complete_analysis,
}
use legaltech_contract_autom.Db.Details.{
  delete_risks_for_contract, delete_obligations_for_contract, insert_risk, insert_obligation_full,
  insert_audit,
}
use legaltech_contract_autom.Ai.Provider.{
  AiAnalysis, AiError, AiProvider, not_configured, timeout, rate_limited, transient, permanent,
  malformed_response, other, safe_category,
}
use legaltech_contract_autom.Ai.Validation.{
  ValidatedAnalysis, ValidatedRisk, ValidatedObligation, validate,
}
use legaltech_contract_autom.Ai.Evidence.{verify_risk_evidence}
use legaltech_contract_autom.Reminders.Service.{sql, ok_or, require}
use legaltech_contract_autom.Services.Retry.{call_with_retries}
use legaltech_contract_autom.Services.Summary.{Summary, summarize}

-- PROMPT_VERSION of src/ai/prompt.rs
abbrev pub prompt_version : ℕ
prompt_version = 3

unfoldable pub map_ai_error : AiError → AppError
map_ai_error not_configured = external_service "contract analysis is not configured on this server"
map_ai_error timeout = external_service "the analysis provider did not respond in time"
map_ai_error rate_limited = external_service "the analysis provider is rate limiting requests"
map_ai_error transient = external_service "the analysis provider is temporarily unavailable"
map_ai_error (permanent status) = external_service "the analysis provider rejected the request"
map_ai_error malformed_response =
    external_service "the analysis provider returned an invalid result"
map_ai_error other = external_service "the analysis provider encountered an error"

pub record AnalysisOutcome : Type 0 where
  pub contract : Contract
  pub analysis : ValidatedAnalysis

-- The two loops of inserts.
unfoldable pub insert_risks : ℕ → List ValidatedRisk → Db AppError (Unit {0})
insert_risks contract_id [] = pure tt
insert_risks contract_id (r ∷ rs) = do
  _ ← sql (insert_risk contract_id r.title r.description r.risk_level r.risk_score r.evidence)
  insert_risks contract_id rs

unfoldable pub insert_obligations : ℕ → List ValidatedObligation → Db AppError (Unit {0})
insert_obligations contract_id [] = pure tt
insert_obligations contract_id (o ∷ os) = do
  _ ← sql (
      insert_obligation_full contract_id o.title o.description o.due_date o.responsible_party
        o.status o.risk_level)
  insert_obligations contract_id os

unfoldable pub columns : AiProvider → ValidatedAnalysis → AnalysisColumns
columns provider v =
    let s = summarize v in
    record {
      start_date = v.start_date;
      end_date = v.end_date;
      risk_level = s.level;
      risk_score = s.score;
      risk_summary = s.text;
      provider = provider.name;
      model = provider.model;
      prompt_version = prompt_version;
    }

-- ROLLBACK, sent as a statement of its own before the conflict is reported.
unfoldable pub rollback : Db DbError (Unit {0})
rollback = statement λ now fresh db. (tt, db)

-- A stale analysis rolls the replacement back.
unfoldable pub unless_stale : Option Contract → Db AppError Contract
unfolding rollback
unless_stale (some c) = pure c
unless_stale none = do
  sql rollback
  throw (conflict "the contract was modified during analysis; please retry")

-- The body of the transaction.
unfoldable pub replace_analysis :
    (user_id contract_id version : ℕ) → ValidatedAnalysis → AiProvider → Db AppError Contract
unfolding unless_stale
replace_analysis user_id contract_id version v provider = do
  _ ← sql (delete_risks_for_contract contract_id)
  _ ← sql (delete_obligations_for_contract contract_id)
  insert_risks contract_id v.risks
  insert_obligations contract_id v.obligations
  stored ← sql (complete_analysis contract_id version (columns provider v))
  updated ← unless_stale stored
  sql (insert_audit (some user_id) "contract_analyzed" "contract" (some contract_id))
  pure updated

unfoldable pub persist_analysis :
    (user_id contract_id version : ℕ) → ValidatedAnalysis → AiProvider → Db AppError Contract
persist_analysis user_id contract_id version v provider =
    transaction (λ e. database) (replace_analysis user_id contract_id version v provider)

-- `let _ = mark_analysis_failed(..)` and then the error.
abbrev pub fail_with : {A : Type 0} → (contract_id version : ℕ) → String → AppError → Db AppError A
fail_with contract_id version reason e = do
  ignore (mark_analysis_failed contract_id version reason)
  throw e

module _ (parse_date : String → Option ℕ) (is_alphanumeric : Char → Bool)
    (to_lowercase : Char → String) where
  -- Steps 5b and 6, with the outcome of the evidence check.
  unfoldable pub after_evidence :
      (user_id : ℕ)
      → Contract
      → AiProvider
      → ValidatedAnalysis
      → Result String (Unit {0})
      → Db AppError AnalysisOutcome
  after_evidence user_id c provider v (err reason) =
      fail_with c.id c.content_version "evidence_not_found_in_contract"
        (external_service "the analysis provider returned evidence that is not in the contract")
  after_evidence user_id c provider v (ok _) = do
    updated ← persist_analysis user_id c.id c.content_version v provider
    pure (record { contract = updated; analysis = v })

  -- Step 5, with the outcome of the validation.
  unfoldable pub after_validation :
      ℕ → Contract → AiProvider → Result String ValidatedAnalysis → Db AppError AnalysisOutcome
  after_validation user_id c provider (err reason) =
      fail_with c.id c.content_version "invalid_ai_output"
        (external_service "the analysis provider returned an invalid result")
  after_validation user_id c provider (ok v) =
      after_evidence user_id c provider v
        (verify_risk_evidence is_alphanumeric to_lowercase v c.raw_text)

  -- Step 4, with the provider's answer.
  unfoldable pub after_answer :
      ℕ → Contract → AiProvider → Result AiError AiAnalysis → Db AppError AnalysisOutcome
  after_answer user_id c provider (err e) =
      fail_with c.id c.content_version (safe_category e) (map_ai_error e)
  after_answer user_id c provider (ok raw) =
      after_validation user_id c provider (validate parse_date raw)

  unfoldable pub analyze_contract :
      (provider : AiProvider) (ai_max_input_chars ai_max_retries user_id contract_id : ℕ)
      → Db AppError AnalysisOutcome
  analyze_contract provider ai_max_input_chars ai_max_retries user_id contract_id = do
    found ← sql (find_contract_for_user contract_id user_id)
    c ← ok_or (not_found "contract") found
    require (leb (len c.raw_text) ai_max_input_chars) (
        validation (
          str_append
            (str_append "contract text is too large to analyze (limit: " (show ai_max_input_chars))
            " bytes)"))
    claimed ← sql (claim_analysis contract_id user_id c.content_version)
    require claimed analysis_in_progress
    after_answer user_id c provider (call_with_retries provider c.raw_text ai_max_retries).result
