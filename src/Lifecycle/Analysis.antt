-- ===== src/Lifecycle/Analysis.antt =====
-- The operations of src/services/analysis.rs keep every row valid.
use Prim.Native.Char.{Char}
use Prim.Native.String.{len, ◌++◌ as str_append}
use legaltech_contract_autom.Common.{
  ℕ, ℤ, String, Bool, leb, Option, none, some, List, [], ◌∷◌, Result, ok, err, show,
}
use legaltech_contract_autom.Errors.{AppError, validation, analysis_in_progress}
use legaltech_contract_autom.Db.Models.{Contract}
use legaltech_contract_autom.Db.Preservation.{
  Keeps-pure, Keeps-throw, Keeps-ignore, Keeps-statement,
}
use legaltech_contract_autom.Db.Contracts.{mark_analysis_failed}
use legaltech_contract_autom.Db.Details.{
  delete_risks_for_contract, insert_risk, insert_obligation_full,
}
use legaltech_contract_autom.Ai.Provider.{AiProvider, AiAnalysis, AiError}
use legaltech_contract_autom.Ai.Validation.{ValidatedAnalysis, ValidatedRisk, ValidatedObligation}
use legaltech_contract_autom.Services.Retry.{call_with_retries}
use legaltech_contract_autom.Services.Analysis.{
  insert_risks, insert_obligations, columns, rollback, unless_stale, replace_analysis,
  persist_analysis, fail_with, after_evidence, after_validation, after_answer, analyze_contract,
}
use legaltech_contract_autom.Lifecycle.{IsValid}
use legaltech_contract_autom.Lifecycle.Reminders.{KeepsValid}
use legaltech_contract_autom.Lifecycle.Contracts.{
  find_contract_for_user-Keeps, claim_analysis-Keeps, mark_analysis_failed-Keeps,
  complete_analysis-Keeps, delete_obligations-Keeps,
}
use legaltech_contract_autom.Lifecycle.Service.{
  Keeps-then, Keeps-sql, Keeps-atomic, ok_or-Keeps, require-Keeps, insert_audit-Keeps,
}

delete_risks-Keeps : (contract_id : ℕ) → KeepsValid (delete_risks_for_contract contract_id)
unfolding delete_risks_for_contract
delete_risks-Keeps contract_id =
    Keeps-statement IsValid _
      (λ now fresh db v. record { reminders = v.reminders; contracts = v.contracts })

insert_risk-Keeps :
    (contract_id : ℕ) (title description level : String) (score : ℤ) (evidence : String)
    → KeepsValid (insert_risk contract_id title description level score evidence)
unfolding insert_risk
insert_risk-Keeps contract_id title description level score evidence =
    Keeps-statement IsValid _
      (λ now fresh db v. record { reminders = v.reminders; contracts = v.contracts })

insert_obligation-Keeps :
    (contract_id : ℕ) (title description : String) (due : Option ℕ) (party : Option String)
    (status : String) (level : Option String)
    → KeepsValid (insert_obligation_full contract_id title description due party status level)
unfolding insert_obligation_full
insert_obligation-Keeps contract_id title description due party status level =
    Keeps-statement IsValid _
      (λ now fresh db v. record { reminders = v.reminders; contracts = v.contracts })

insert_risks-Keeps :
    (contract_id : ℕ) (rs : List ValidatedRisk) → KeepsValid (insert_risks contract_id rs)
unfolding insert_risks
insert_risks-Keeps contract_id [] = Keeps-pure IsValid tt
insert_risks-Keeps contract_id (r ∷ rs) =
    Keeps-then _ _ (Keeps-sql _ (insert_risk-Keeps contract_id _ _ _ _ _))
      λ _. insert_risks-Keeps contract_id rs

insert_obligations-Keeps :
    (contract_id : ℕ) (os : List ValidatedObligation)
    → KeepsValid (insert_obligations contract_id os)
unfolding insert_obligations
insert_obligations-Keeps contract_id [] = Keeps-pure IsValid tt
insert_obligations-Keeps contract_id (o ∷ os) =
    Keeps-then _ _ (Keeps-sql _ (insert_obligation-Keeps contract_id _ _ _ _ _ _))
      λ _. insert_obligations-Keeps contract_id os

rollback-Keeps : KeepsValid rollback
unfolding rollback
rollback-Keeps = Keeps-statement IsValid _ (λ now fresh db v. v)

unless_stale-Keeps : (o : Option Contract) → KeepsValid (unless_stale o)
unfolding unless_stale
unless_stale-Keeps (some c) = Keeps-pure IsValid c
unless_stale-Keeps none = Keeps-then _ _ (Keeps-sql _ rollback-Keeps) λ _. Keeps-throw IsValid _

persist_analysis-Keeps :
    (user_id contract_id version : ℕ) (v : ValidatedAnalysis) (provider : AiProvider)
    → KeepsValid (persist_analysis user_id contract_id version v provider)
unfolding persist_analysis replace_analysis
persist_analysis-Keeps user_id contract_id version v provider = Keeps-atomic _ (
    Keeps-then _ _ (Keeps-sql _ (delete_risks-Keeps contract_id)) λ _.
      Keeps-then _ _ (Keeps-sql _ (delete_obligations-Keeps contract_id)) λ _.
        Keeps-then _ _ (insert_risks-Keeps contract_id v.risks) λ _.
          Keeps-then _ _ (insert_obligations-Keeps contract_id v.obligations) λ _.
            Keeps-then _ _
              (Keeps-sql _ (complete_analysis-Keeps contract_id version (columns provider v)))
              λ stored. Keeps-then _ _ (unless_stale-Keeps stored) λ updated.
                Keeps-then _ _ (Keeps-sql _ (insert_audit-Keeps _ _ _ _))
                  λ _. Keeps-pure IsValid updated)

fail_with-Keeps :
    {A : Type 0} (contract_id version : ℕ) (reason : String) (e : AppError)
    → KeepsValid {A = A} (fail_with contract_id version reason e)
fail_with-Keeps contract_id version reason e =
    Keeps-then _ _
      (Keeps-ignore IsValid (mark_analysis_failed contract_id version reason)
        (mark_analysis_failed-Keeps contract_id version reason))
      λ _. Keeps-throw IsValid e

module _ (parse_date : String → Option ℕ) (is_alphanumeric : Char → Bool)
    (to_lowercase : Char → String) where
  after_evidence-Keeps :
      (user_id : ℕ) (c : Contract) (provider : AiProvider) (v : ValidatedAnalysis)
      (r : Result String (Unit {0}))
      → KeepsValid (after_evidence parse_date is_alphanumeric to_lowercase user_id c provider v r)
  unfolding after_evidence
  after_evidence-Keeps user_id c provider v (err reason) =
      fail_with-Keeps c.id c.content_version _ _
  after_evidence-Keeps user_id c provider v (ok _) =
      Keeps-then _ _ (persist_analysis-Keeps user_id c.id c.content_version v provider)
        λ updated. Keeps-pure IsValid _

  after_validation-Keeps :
      (user_id : ℕ) (c : Contract) (provider : AiProvider) (r : Result String ValidatedAnalysis)
      → KeepsValid (after_validation parse_date is_alphanumeric to_lowercase user_id c provider r)
  unfolding after_validation
  after_validation-Keeps user_id c provider (err reason) =
      fail_with-Keeps c.id c.content_version _ _
  after_validation-Keeps user_id c provider (ok v) = after_evidence-Keeps user_id c provider v _

  after_answer-Keeps :
      (user_id : ℕ) (c : Contract) (provider : AiProvider) (r : Result AiError AiAnalysis)
      → KeepsValid (after_answer parse_date is_alphanumeric to_lowercase user_id c provider r)
  unfolding after_answer
  after_answer-Keeps user_id c provider (err e) = fail_with-Keeps c.id c.content_version _ _
  after_answer-Keeps user_id c provider (ok raw) = after_validation-Keeps user_id c provider _

  pub analyze_contract-Keeps :
      (provider : AiProvider) (max_input max_retries user_id contract_id : ℕ)
      → KeepsValid (
          analyze_contract parse_date is_alphanumeric to_lowercase provider max_input max_retries
            user_id contract_id)
  unfolding analyze_contract
  analyze_contract-Keeps provider max_input max_retries user_id contract_id =
      Keeps-then _ _ (Keeps-sql _ (find_contract_for_user-Keeps contract_id user_id)) λ found.
        Keeps-then _ _ (ok_or-Keeps _ found) λ c.
          Keeps-then _ _
            (require-Keeps (leb (len c.raw_text) max_input) (
              validation (
                str_append
                  (str_append "contract text is too large to analyze (limit: " (show max_input))
                  " bytes)")))
            λ _.
              Keeps-then _ _
                (Keeps-sql _ (claim_analysis-Keeps contract_id user_id c.content_version))
                λ claimed. Keeps-then _ _ (require-Keeps claimed analysis_in_progress) λ _.
                  after_answer-Keeps user_id c provider
                    (call_with_retries provider c.raw_text max_retries).result
