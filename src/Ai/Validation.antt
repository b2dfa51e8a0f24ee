-- ===== src/Ai/Validation.antt =====
-- src/ai/validation.rs, first part: the structural rules for a provider's answer.
-- `parse_date` is chrono's NaiveDate::parse_from_str with the format "%Y-%m-%d".
pub mod Storable
use Prim.Native.String.{◌++◌ as str_append, len}
use legaltech_contract_autom.Common.{
  ℕ, suc, ℤ, pos, negsuc, String, Bool, true, false, not, Option, none, some, if◌then◌else◌, ltb,
  leb, List, [], ◌∷◌, Result, ok, err, ◌>>=◌, ◌>>◌, show,
}
use legaltech_contract_autom.Common.Texts.{trim, is_empty, is_one_of}
use legaltech_contract_autom.Ai.Provider.{AiAnalysis, AiRisk, AiObligation}

pub record ValidatedRisk : Type 0 where
  pub title : String
  pub description : String
  pub risk_level : String
  pub risk_score : ℤ
  pub evidence : String

pub record ValidatedObligation : Type 0 where
  pub title : String
  pub description : String
  pub due_date : Option ℕ
  pub responsible_party : Option String
  pub status : String
  pub risk_level : Option String

pub record ValidatedAnalysis : Type 0 where
  pub start_date : Option ℕ
  pub end_date : Option ℕ
  pub risks : List ValidatedRisk
  pub obligations : List ValidatedObligation

abbrev pub max_title_len : ℕ
max_title_len = 500

abbrev pub max_text_len : ℕ
max_text_len = 20_000

abbrev pub max_evidence_len : ℕ
max_evidence_len = 20_000

abbrev pub valid_risk_levels : List String
valid_risk_levels = "low" ∷ "medium" ∷ "high" ∷ "critical" ∷ []

abbrev pub valid_obligation_statuses : List String
valid_obligation_statuses = "pending" ∷ "completed" ∷ "overdue" ∷ "cancelled" ∷ []

-- An early `return Err` when the test fails.
abbrev pub check : Bool → String → Result String (Unit {0})
check true reason = ok tt
check false reason = err reason

unfoldable pub require_bounded : String → String → ℕ → Result String String
require_bounded field value most = do
  check (not (is_empty (trim value))) (str_append field " must not be empty")
  check (leb (len (trim value)) most)
      (str_append (str_append field " exceeds ") (str_append (show most) " bytes"))
  ok (trim value)

-- (0..=100).contains(&score)
abbrev pub score_in_range : ℤ → Bool
score_in_range (pos n) = leb n 100
score_in_range (negsuc n) = false

-- "risks[{idx}].{what}"
abbrev at_index : String → ℕ → String → String
at_index list idx what =
    str_append (str_append list "[") (str_append (show idx) (str_append "]" what))

unfoldable pub validate_risk : AiRisk → ℕ → Result String ValidatedRisk
unfolding is_one_of
validate_risk risk idx = do
  title ← require_bounded "risks[].title" risk.title max_title_len
  description ← require_bounded "risks[].description" risk.description max_text_len
  evidence ← require_bounded "risks[].evidence" risk.evidence max_evidence_len
  check (is_one_of valid_risk_levels risk.risk_level)
      (at_index "risks" idx ".risk_level is not a valid level")
  check (score_in_range risk.risk_score)
      (at_index "risks" idx ".risk_score must be between 0 and 100")
  ok (record {
    title = title;
    description = description;
    risk_level = risk.risk_level;
    risk_score = risk.risk_score;
    evidence = evidence;
  })

-- The level of an obligation may be missing.
abbrev pub level_ok : Option String → Bool
level_ok none = true
level_ok (some level) = is_one_of valid_risk_levels level

-- .map(trim).filter(not empty)
abbrev pub trimmed_party : Option String → Option String
trimmed_party none = none
trimmed_party (some party) = if is_empty (trim party) then none else some (trim party)

-- e < s for two known dates
abbrev pub ends_early : Option ℕ → Option ℕ → Bool
ends_early none end = false
ends_early (some s) none = false
ends_early (some s) (some e) = ltb e s

module _ (parse_date : String → Option ℕ) where
  parsed : String → Option ℕ → Result String (Option ℕ)
  parsed field none = err (str_append field " is not a valid ISO date")
  parsed field (some date) = ok (some date)

  unfoldable pub parse_optional_date : Option String → String → Result String (Option ℕ)
  unfolding parsed
  parse_optional_date none field = ok none
  parse_optional_date (some s) field =
      if is_empty (trim s) then ok none else parsed field (parse_date (trim s))

  unfoldable pub validate_obligation : AiObligation → ℕ → Result String ValidatedObligation
  validate_obligation o idx = do
    title ← require_bounded "obligations[].title" o.title max_title_len
    description ← require_bounded "obligations[].description" o.description max_text_len
    due_date ← parse_optional_date o.due_date "obligations[].due_date"
    check (is_one_of valid_obligation_statuses o.status)
        (at_index "obligations" idx ".status is not a valid status")
    check (level_ok o.risk_level) (at_index "obligations" idx ".risk_level is not a valid level")
    ok (record {
      title = title;
      description = description;
      due_date = due_date;
      responsible_party = trimmed_party o.responsible_party;
      status = o.status;
      risk_level = o.risk_level;
    })

  unfoldable pub validate_risks : List AiRisk → ℕ → Result String (List ValidatedRisk)
  validate_risks [] idx = ok []
  validate_risks (r ∷ rs) idx = do
    v ← validate_risk r idx
    vs ← validate_risks rs (suc idx)
    ok (v ∷ vs)

  unfoldable pub validate_obligations :
      List AiObligation → ℕ → Result String (List ValidatedObligation)
  validate_obligations [] idx = ok []
  validate_obligations (o ∷ os) idx = do
    v ← validate_obligation o idx
    vs ← validate_obligations os (suc idx)
    ok (v ∷ vs)

  unfoldable pub validate : AiAnalysis → Result String ValidatedAnalysis
  validate a = do
    start_date ← parse_optional_date a.contract_dates.start_date "start_date"
    end_date ← parse_optional_date a.contract_dates.end_date "end_date"
    check (not (ends_early start_date end_date)) "end_date is earlier than start_date"
    risks ← validate_risks a.risks 0
    obligations ← validate_obligations a.obligations 0
    ok (record {
      start_date = start_date;
      end_date = end_date;
      risks = risks;
      obligations = obligations;
    })
