-- ===== src/Ai/Evidence.antt =====
-- src/ai/validation.rs, second part: the evidence of a risk against the text of the contract.
-- `is_alphanumeric` and `to_lowercase` are the tables of Rust's char.
pub mod Score
use Prim.Native.Char.{Char, code}
use Prim.Native.String
use Prim.Native.String.{len, ◌++◌ as str_append}
use legaltech_contract_autom.Common.{
  ℕ, zero, suc, ◌+◌, ◌*◌, ◌/◌, String, Bool, true, false, not, ◌&&◌, ◌||◌, if◌then◌else◌, ◌==◌, ltb,
  leb, List, [], ◌∷◌, filter, count, length, Result, ok, err, show,
}
use legaltech_contract_autom.Common.Texts.{
  is_whitespace, trim, contains, split_whitespace, is_one_of, push,
}
use legaltech_contract_autom.Ai.Validation.{ValidatedAnalysis, ValidatedRisk}

-- Curly and straight quotes.
abbrev is_quote : ℕ → Bool
is_quote c = c == 0x201C || c == 0x201D || c == 0x2018 || c == 0x2019 || c == b'"' || c == 39

abbrev is_kept_mark : ℕ → Bool
is_kept_mark c =
    c == b'.'
    || c == b','
    || c == b':'
    || c == b';'
    || c == b'('
    || c == b')'
    || c == b'-'
    || c == b'/'

module _ (is_alphanumeric : Char → Bool) (to_lowercase : Char → String) where
  -- One round of the loop over `out` and `last_was_space`.
  normalize_char : String → Bool → Char → String × Bool
  unfolding is_whitespace
  normalize_char out last_was_space ch =
      if is_whitespace ch
      then (if last_was_space then (out, true) else (str_append out " ", true))
      else if is_quote (code ch)
      then (out, last_was_space)
      else if is_alphanumeric ch || is_kept_mark (code ch)
      then (str_append out (to_lowercase ch), false)
      else (out, last_was_space)

  normalize_from : String → Bool → String → String
  unfolding normalize_char
  normalize_from out last_was_space String.[] = out
  normalize_from out last_was_space (String.◌∷◌ ch s) =
      let (out', last) = normalize_char out last_was_space ch in normalize_from out' last s

  unfoldable pub normalize_for_match : String → String
  unfolding normalize_from trim
  normalize_for_match input = trim (normalize_from "" true input)

  -- The words of at least four bytes.
  abbrev pub significant : String → List String
  significant e = filter (λ t. leb 4 (len t)) (split_whitespace e)

  unfoldable pub evidence_matches_contract : String → String → Bool
  unfolding normalize_for_match contains split_whitespace is_one_of
  evidence_matches_contract evidence contract_text =
      let e = normalize_for_match evidence in
      let c = normalize_for_match contract_text in
      let e_tokens = significant e in
      let matching = count (is_one_of (split_whitespace c)) e_tokens in
      if ltb (String.count e) 12
      then false
      else if contains c e
      then true
      else if ltb (length e_tokens) 3
      then false
      else leb ((length e_tokens * 7 + 9) / 10) matching

  -- The loop of `verify_risk_evidence` from risk number `idx` on.
  unfoldable pub verify_from : ℕ → List ValidatedRisk → String → Result String (Unit {0})
  verify_from idx [] contract_text = ok tt
  verify_from idx (r ∷ rs) contract_text =
      if not (evidence_matches_contract r.evidence contract_text)
      then err (
          str_append (str_append "risk[" (show idx))
            "] evidence is not present in the source contract")
      else verify_from (suc idx) rs contract_text

  unfoldable pub verify_risk_evidence : ValidatedAnalysis → String → Result String (Unit {0})
  unfolding verify_from
  verify_risk_evidence analysis contract_text = verify_from 0 analysis.risks contract_text

  unfoldable pub evidence_verification_score : ValidatedAnalysis → String → ℕ
  evidence_verification_score analysis contract_text =
      let total = length analysis.risks in
      let verified =
        count (λ r. evidence_matches_contract r.evidence contract_text) analysis.risks in
      if total == 0 then 100 else verified * 100 / total
