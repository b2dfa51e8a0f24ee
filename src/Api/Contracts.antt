-- ===== src/Api/Contracts.antt =====
-- src/api/contracts.rs: the handlers of contracts, past the rate limit of `analyze`.
-- `title_le` is the collation of the database. Uploads are left out.
pub mod Query
pub mod Listing
use Prim.Native.Char.{Char}
use Prim.Native.String.{◌++◌ as str_append}
use text.Mathlib.Text.{◌==◌ as str_eq}
use legaltech_contract_autom.Common.{
  ℕ, ℤ, String, Bool, Option, none, some, if◌then◌else◌, List, map, Result, ok, err,
}
use legaltech_contract_autom.Errors.{AppError, validation}
use legaltech_contract_autom.Db.Models.{Contract, ContractRisk, ContractObligation, AnalysisStatus}
use legaltech_contract_autom.Db.Session.{Db, pure, ◌>>=◌, ◌>>◌}
use legaltech_contract_autom.Db.Details.{list_risks_for_contract, list_obligations_for_contract}
use legaltech_contract_autom.Ai.Provider.{AiProvider}
use legaltech_contract_autom.Reminders.Service.{sql}
use legaltech_contract_autom.Services.Contracts.{validate_title, validate_raw_text, get_contract}
use legaltech_contract_autom.Services.Contracts
use legaltech_contract_autom.Services.Analysis.{analyze_contract}
use legaltech_contract_autom.Auth.Extractor.{AuthenticatedUser}
use legaltech_contract_autom.Auth.Handlers.{from_result}
use legaltech_contract_autom.Api.Requests.{JsonRejection, from_json, from_path}

pub record CreateContractRequest : Type 0 where
  pub title : String
  pub raw_text : String

pub record UpdateContractRequest : Type 0 where
  pub title : Option String
  pub raw_text : Option String

pub record RiskItem : Type 0 where
  pub id : ℕ
  pub title : String
  pub description : String
  pub risk_level : String
  pub risk_score : ℤ
  pub evidence : String

pub record ObligationItem : Type 0 where
  pub id : ℕ
  pub title : String
  pub description : String
  pub due_date : Option ℕ
  pub responsible_party : Option String
  pub status : String
  pub risk_level : Option String

-- The contract's own columns are those of its row.
pub record AnalysisResponse : Type 0 where
  pub contract : Contract
  pub risks : List RiskItem
  pub obligations : List ObligationItem

abbrev pub risk_item : ContractRisk → RiskItem
risk_item r = record {
  id = r.id;
  title = r.title;
  description = r.description;
  risk_level = r.risk_level;
  risk_score = r.risk_score;
  evidence = r.evidence;
}

abbrev pub obligation_item : ContractObligation → ObligationItem
obligation_item o = record {
  id = o.id;
  title = o.title;
  description = o.description;
  due_date = o.due_date;
  responsible_party = o.responsible_party;
  status = o.status;
  risk_level = o.risk_level;
}

unfoldable pub build_analysis_response : Contract → Db AppError AnalysisResponse
build_analysis_response contract = do
  risks ← sql (list_risks_for_contract contract.id)
  obligations ← sql (list_obligations_for_contract contract.id)
  pure (record {
    contract = contract;
    risks = map risk_item risks;
    obligations = map obligation_item obligations;
  })

unfoldable pub create_contract :
    AuthenticatedUser → Result JsonRejection CreateContractRequest → Db AppError Contract
create_contract auth payload = do
  req ← from_result (from_json payload)
  title ← from_result (validate_title req.title)
  from_result (validate_raw_text req.raw_text)
  Contracts.create auth.user_id title req.raw_text

unfoldable pub get_one : AuthenticatedUser → (path : Option ℕ) → Db AppError Contract
get_one auth path = do id ← from_result (from_path path); get_contract auth.user_id id

-- An optional field of the request, checked when it is there.
abbrev pub title_of : Option String → Result AppError (Option String)
title_of none = ok none
title_of (some raw) = elim (validate_title raw) [ err e ↦ err e | ok title ↦ ok (some title) ]

abbrev pub raw_text_of : Option String → Result AppError (Option String)
raw_text_of none = ok none
raw_text_of (some raw) = elim (validate_raw_text raw) [ err e ↦ err e | ok _ ↦ ok (some raw) ]

unfoldable pub update_contract :
    AuthenticatedUser
    → (path : Option ℕ) → Result JsonRejection UpdateContractRequest
    → Db AppError Contract
update_contract auth path payload = do
  id ← from_result (from_path path)
  req ← from_result (from_json payload)
  title ← from_result (title_of req.title)
  raw_text ← from_result (raw_text_of req.raw_text)
  Contracts.update auth.user_id id title raw_text

unfoldable pub delete_contract : AuthenticatedUser → (path : Option ℕ) → Db AppError (Unit {0})
delete_contract auth path = do id ← from_result (from_path path); Contracts.delete auth.user_id id

unfoldable pub get_analysis : AuthenticatedUser → (path : Option ℕ) → Db AppError AnalysisResponse
unfolding build_analysis_response
get_analysis auth path = do
  id ← from_result (from_path path)
  contract ← get_contract auth.user_id id
  build_analysis_response contract

module _ (parse_date : String → Option ℕ) (is_alphanumeric : Char → Bool)
    (to_lowercase : Char → String) where
  unfoldable pub analyze :
      (provider : AiProvider) (ai_max_input_chars ai_max_retries : ℕ)
      → AuthenticatedUser
      → (path : Option ℕ) → Db AppError AnalysisResponse
  unfolding build_analysis_response
  analyze provider ai_max_input_chars ai_max_retries auth path = do
    id ← from_result (from_path path)
    outcome ←
        analyze_contract parse_date is_alphanumeric to_lowercase provider ai_max_input_chars
          ai_max_retries auth.user_id id
    build_analysis_response outcome.contract
