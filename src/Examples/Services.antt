-- ===== src/Examples/Services.antt =====
-- The analysis and its parts at concrete inputs.
use legaltech_contract_autom.Common.{
  ℕ, zero, suc, ◌+◌, ◌≤◌, pos, String, true, false, ◌≡◌, refl, ◌⊎◌, ◌↔◌, Option, none, some, [],
  ◌∷◌, All, length, Result, ok, err,
}
use legaltech_contract_autom.Common.Texts.{trim}
use legaltech_contract_autom.Errors.{AppError}
use legaltech_contract_autom.Db.Models.{Contract}
use legaltech_contract_autom.Db.Session.{World, seen}
use legaltech_contract_autom.Ai.Provider.{AiAnalysis, AiError, AiProvider, timeout}
use legaltech_contract_autom.Ai.Validation.{
  ValidatedAnalysis, ValidatedRisk, ValidatedObligation, ends_early, validate, validate_risk,
  validate_risks, validate_obligations, require_bounded, parse_optional_date,
}
use legaltech_contract_autom.Ai.Validation.Storable.{
  RiskIsStorable, ObligationIsStorable, validate-IsStorable,
}
use legaltech_contract_autom.Ai.Evidence.{verify_risk_evidence, evidence_verification_score}
use legaltech_contract_autom.Ai.Evidence.Score.{verify-iff-score}
use legaltech_contract_autom.Services.Retry.{call_with_retries}
use legaltech_contract_autom.Services.Retry.Bounds.{may_pass, call_with_retries_lem}
use legaltech_contract_autom.Services.Summary.{summarize}
use legaltech_contract_autom.Services.Summary.Highest.{IsAmong, ScoresAtMost, summarize-highest}
use legaltech_contract_autom.Services.Analysis.{persist_analysis}
use legaltech_contract_autom.Services.Analysis.Stored.{IsStored}
use legaltech_contract_autom.Services.Analysis.Atomic.{IsAnalyzed, persist_analysis_lem}
use legaltech_contract_autom.Examples.Data.{quiet, small}

abbrev risk : ValidatedRisk
risk = record {
  title = "Rent";
  description = "The rent may rise.";
  risk_level = "high";
  risk_score = pos 70;
  evidence = "The tenant pays rent.";
}

abbrev analysis : ValidatedAnalysis
analysis = record { start_date = none; end_date = some 20; risks = risk ∷ []; obligations = [] }

abbrev answer : AiAnalysis
answer = record {
  contract_dates = record { start_date = none; end_date = some "0001-01-21" };
  risks =
      record {
        title = "Rent";
        description = "The rent may rise.";
        risk_level = "high";
        risk_score = pos 70;
        evidence = "The tenant pays rent.";
      }
      ∷ [];
  obligations = [];
}

-- The provider fails once, and then answers.
abbrev analyze : ℕ → String → Result AiError AiAnalysis
analyze zero text = err timeout
analyze (suc k) text = ok answer

abbrev provider : AiProvider
provider = record { analyze = analyze; name = "stub"; model = "stub-1" }

abbrev parse_date : String → Option ℕ
parse_date s = some 20

accepted : validate parse_date answer ≡ ok analysis
unfolding validate validate_risks validate_risk validate_obligations require_bounded
    parse_optional_date trim
accepted = refl

validate-IsStorable_example :
    All RiskIsStorable (risk ∷ [])
    × (length (risk ∷ []) ≡ 1)
    × All ObligationIsStorable []
    × (length {A = ValidatedObligation} [] ≡ 0)
    × (ends_early none (some 20) ≡ false)
validate-IsStorable_example = validate-IsStorable parse_date answer analysis accepted

verify-iff-score_example :
    (verify_risk_evidence (λ c. true) (λ c. "a") analysis "The tenant pays rent." ≡ ok tt)
    ↔ (evidence_verification_score (λ c. true) (λ c. "a") analysis "The tenant pays rent." ≡ 100)
verify-iff-score_example = verify-iff-score (λ c. true) (λ c. "a") analysis "The tenant pays rent."

call_with_retries_lem_example :
    let a = call_with_retries provider "text" 2 in
    (a.calls ≡ length a.delays + 1)
    × (length a.delays ≤ 2)
    × (provider.analyze (length a.delays) "text" ≡ a.result)
    × ((may_pass a.result ≡ false) ⊎ (length a.delays ≡ 2))
    × All (λ d. d ≤ 5000) a.delays
call_with_retries_lem_example = call_with_retries_lem provider "text" 2

summarize-highest_example :
    ((risk ∷ [] ≡ []) × ((summarize analysis).level ≡ none) × ((summarize analysis).score ≡ none))
    ⊎ ((m : ValidatedRisk) × IsAmong m (risk ∷ [])
        × ((summarize analysis).level ≡ some m.risk_level)
        × ((summarize analysis).score ≡ some m.risk_score)
        × All (ScoresAtMost m.risk_score) (risk ∷ []))
summarize-highest_example = summarize-highest analysis

abbrev persisted : Result AppError Contract × World
persisted = persist_analysis 2 1 1 analysis provider (quiet small)

persist_analysis_lem_example :
    ((c : Contract) × (persisted.0 ≡ ok c)
      × IsAnalyzed 1 1 c
      × IsStored 5_000_000_000 1 1 analysis provider (seen (quiet small)) persisted.1.db c)
    ⊎ ((e : AppError) × (persisted.0 ≡ err e) × (persisted.1.db ≡ seen (quiet small)))
persist_analysis_lem_example =
    persist_analysis_lem 2 1 1 analysis provider persisted.0 (quiet small) persisted.1 refl
