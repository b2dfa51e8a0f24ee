-- ===== src/Ai/Validation/Storable.antt =====
-- What src/ai/validation.rs guarantees of an analysis that it accepts: the bounds of the code and the
-- CHECK constraints of the tables that it is stored in.
use Prim.Native.String.{len}
use mathlib.Core.Path.{subst}
use legaltech_contract_autom.Common.{
  ℕ, suc, String, Bool, true, false, not, ◌≡◌, refl, Option, List, [], ◌∷◌, All, length, Result, ok,
  >>=-eq-ok, ap, arith, leb,
}
use legaltech_contract_autom.Common.Texts.{trim, is_empty, is_one_of}
use legaltech_contract_autom.Ai.Provider.{AiAnalysis, AiRisk, AiObligation}
use legaltech_contract_autom.Ai.Validation.{
  ValidatedRisk, ValidatedObligation, ValidatedAnalysis, max_title_len, max_text_len,
  max_evidence_len, valid_risk_levels, valid_obligation_statuses, check, require_bounded,
  score_in_range, validate_risk, level_ok, trimmed_party, ends_early, parse_optional_date,
  validate_obligation, validate_risks, validate_obligations, validate,
}

-- A text that is not empty and has at most so many bytes.
abbrev IsBounded : ℕ → String → Type 0
IsBounded most s = (is_empty s ≡ false) × (leb (len s) most ≡ true)

abbrev pub RiskIsStorable : ValidatedRisk → Type 0
RiskIsStorable r =
    IsBounded max_title_len r.title
    × IsBounded max_text_len r.description
    × IsBounded max_evidence_len r.evidence
    × (is_one_of valid_risk_levels r.risk_level ≡ true)
    × (score_in_range r.risk_score ≡ true)

abbrev pub ObligationIsStorable : ValidatedObligation → Type 0
ObligationIsStorable o =
    IsBounded max_title_len o.title
    × IsBounded max_text_len o.description
    × (is_one_of valid_obligation_statuses o.status ≡ true)
    × (level_ok o.risk_level ≡ true)

ok-injective : {A : Type 0} {a b : A} → ◌≡◌ {A = Result String A} (ok a) (ok b) → a ≡ b
ok-injective h = cc

not-true : (b : Bool) → not b ≡ true → b ≡ false
not-true b h = ground arith

check-ok : (b : Bool) (reason : String) {u : Unit {0}} → check b reason ≡ ok u → b ≡ true
check-ok true reason h = refl
check-ok false reason h = absurd (cc)

require_bounded-ok :
    (field value : String) (most : ℕ) {s : String}
    → require_bounded field value most ≡ ok s
    → IsBounded most s
unfolding require_bounded
require_bounded-ok field value most {s} h =
    let (_, full, rest) = >>=-eq-ok _ _ h in
    let (_, short, last) = >>=-eq-ok _ _ rest in
    let same : trim value ≡ s = ok-injective last in
    subst (IsBounded most) same (not-true _ (check-ok _ _ full), check-ok _ _ short)

validate_risk-ok :
    (risk : AiRisk) (idx : ℕ) {v : ValidatedRisk} → validate_risk risk idx ≡ ok v → RiskIsStorable v
unfolding validate_risk
validate_risk-ok risk idx {v} h =
    let (title, t, h₁) = >>=-eq-ok _ _ h in
    let (description, d, h₂) = >>=-eq-ok _ _ h₁ in
    let (evidence, e, h₃) = >>=-eq-ok _ _ h₂ in
    let (_, level, h₄) = >>=-eq-ok _ _ h₃ in
    let (_, score, h₅) = >>=-eq-ok _ _ h₄ in
    let built : ValidatedRisk = record {
      title = title;
      description = description;
      risk_level = risk.risk_level;
      risk_score = risk.risk_score;
      evidence = evidence;
    } in
    let sound : RiskIsStorable built = (
      require_bounded-ok _ _ _ t,
      require_bounded-ok _ _ _ d,
      require_bounded-ok _ _ _ e,
      check-ok _ _ level,
      check-ok _ _ score,
    ) in
    subst RiskIsStorable (ok-injective h₅) sound

module _ (parse_date : String → Option ℕ) where
  validate_risks-ok :
      (rs : List AiRisk) (idx : ℕ) {vs : List ValidatedRisk}
      → validate_risks parse_date rs idx ≡ ok vs
      → All RiskIsStorable vs × (length vs ≡ length rs)
  unfolding validate_risks
  validate_risks-ok [] idx h =
      subst (λ vs. All RiskIsStorable vs × (length vs ≡ 0)) (ok-injective h) (tt, refl)
  validate_risks-ok (r ∷ rs) idx h =
      let (v, first, h₁) = >>=-eq-ok _ _ h in
      let (vs, others, h₂) = >>=-eq-ok _ _ h₁ in
      let (sound, same) = validate_risks-ok rs (suc idx) others in
      subst (λ ws. All RiskIsStorable ws × (length ws ≡ suc (length rs))) {x = v ∷ vs}
        (ok-injective h₂) ((validate_risk-ok r idx first, sound), ap suc same)

  validate_obligation-ok :
      (o : AiObligation) (idx : ℕ) {v : ValidatedObligation}
      → validate_obligation parse_date o idx ≡ ok v
      → ObligationIsStorable v
  unfolding validate_obligation
  validate_obligation-ok o idx {v} h =
      let (title, t, h₁) = >>=-eq-ok _ _ h in
      let (description, d, h₂) = >>=-eq-ok _ _ h₁ in
      let (due, e, h₃) =
        >>=-eq-ok (parse_optional_date parse_date o.due_date "obligations[].due_date") _ h₂ in
      let (_, status, h₄) = >>=-eq-ok _ _ h₃ in
      let (_, level, h₅) = >>=-eq-ok _ _ h₄ in
      let built : ValidatedObligation = record {
        title = title;
        description = description;
        due_date = due;
        responsible_party = trimmed_party o.responsible_party;
        status = o.status;
        risk_level = o.risk_level;
      } in
      let sound : ObligationIsStorable built = (
        require_bounded-ok _ _ _ t,
        require_bounded-ok _ _ _ d,
        check-ok _ _ status,
        check-ok _ _ level,
      ) in
      subst ObligationIsStorable (ok-injective h₅) sound

  validate_obligations-ok :
      (os : List AiObligation) (idx : ℕ) {vs : List ValidatedObligation}
      → validate_obligations parse_date os idx ≡ ok vs
      → All ObligationIsStorable vs × (length vs ≡ length os)
  unfolding validate_obligations
  validate_obligations-ok [] idx h =
      subst (λ vs. All ObligationIsStorable vs × (length vs ≡ 0)) (ok-injective h) (tt, refl)
  validate_obligations-ok (o ∷ os) idx h =
      let (v, first, h₁) = >>=-eq-ok _ _ h in
      let (vs, others, h₂) = >>=-eq-ok _ _ h₁ in
      let (sound, same) = validate_obligations-ok os (suc idx) others in
      subst (λ ws. All ObligationIsStorable ws × (length ws ≡ suc (length os))) {x = v ∷ vs}
        (ok-injective h₂) ((validate_obligation-ok o idx first, sound), ap suc same)

  -- An accepted analysis keeps every risk and every obligation of the answer, each with bounded,
  -- non-empty texts and with the levels, the score and the status that the tables admit, and its end
  -- date is not before its start date.
  pub validate-IsStorable :
      (a : AiAnalysis) (v : ValidatedAnalysis)
      → validate parse_date a ≡ ok v
      → All RiskIsStorable v.risks
        × (length v.risks ≡ length a.risks)
        × All ObligationIsStorable v.obligations
        × (length v.obligations ≡ length a.obligations)
        × (ends_early v.start_date v.end_date ≡ false)
  unfolding validate
  validate-IsStorable a v h =
      let (start_date, s, h₁) =
        >>=-eq-ok (parse_optional_date parse_date a.contract_dates.start_date "start_date") _ h in
      let (end_date, e, h₂) =
        >>=-eq-ok (parse_optional_date parse_date a.contract_dates.end_date "end_date") _ h₁ in
      let (_, dates, h₃) = >>=-eq-ok _ _ h₂ in
      let (risks, r, h₄) = >>=-eq-ok _ _ h₃ in
      let (obligations, o, h₅) = >>=-eq-ok _ _ h₄ in
      let (rs, rn) = validate_risks-ok a.risks 0 r in
      let (os, on) = validate_obligations-ok a.obligations 0 o in
      let in_order : not (ends_early start_date end_date) ≡ true = check-ok _ _ dates in
      let built : ValidatedAnalysis = record {
        start_date = start_date;
        end_date = end_date;
        risks = risks;
        obligations = obligations;
      } in
      subst
        (λ (x : ValidatedAnalysis).
          All RiskIsStorable x.risks
          × (length x.risks ≡ length a.risks)
          × All ObligationIsStorable x.obligations
          × (length x.obligations ≡ length a.obligations)
          × (ends_early x.start_date x.end_date ≡ false))
        (ok-injective {a = built} h₅) (rs, rn, os, on, not-true _ in_order)
