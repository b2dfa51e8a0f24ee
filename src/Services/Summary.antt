-- ===== src/Services/Summary.antt =====
-- src/services/analysis.rs, `summarize`: the columns that stand for the risks of a contract.
pub mod Highest
use Prim.Native.String.{◌++◌ as str_append}
use legaltech_contract_autom.Common.{
  ℕ, zero, suc, ◌+◌, ℤ, pos, negsuc, String, Bool, true, false, Option, none, some, if◌then◌else◌,
  ◌==◌, leb, List, [], ◌∷◌, length, show,
}
use legaltech_contract_autom.Ai.Validation.{ValidatedRisk, ValidatedAnalysis}

-- a <= b on i32
unfoldable pub leb_ℤ : ℤ → ℤ → Bool
leb_ℤ (pos a) (pos b) = leb a b
leb_ℤ (pos a) (negsuc b) = false
leb_ℤ (negsuc a) (pos b) = true
leb_ℤ (negsuc a) (negsuc b) = leb b a

-- Iterator::max over the scores: the later of two equals.
unfoldable pub max_score : ℤ → List ValidatedRisk → ℤ
unfolding leb_ℤ
max_score best [] = best
max_score best (r ∷ rs) = max_score (if leb_ℤ best r.risk_score then r.risk_score else best) rs

-- Iterator::max_by_key: the last of the risks with the highest score.
unfoldable pub max_by_score : ValidatedRisk → List ValidatedRisk → ValidatedRisk
unfolding leb_ℤ
max_by_score best [] = best
max_by_score best (r ∷ rs) =
    max_by_score (if leb_ℤ best.risk_score r.risk_score then r else best) rs

show_ℤ : ℤ → String
show_ℤ (pos n) = show n
show_ℤ (negsuc n) = str_append "-" (show (suc n))

pub record Summary : Type 0 where
  pub level : Option String
  pub score : Option ℤ
  pub text : Option String

abbrev plural : ℕ → String
plural n = if n == 1 then "" else "s"

unfoldable pub summarize_risks : List ValidatedRisk → Summary
unfolding show_ℤ max_score max_by_score
summarize_risks [] = record {
  level = none;
  score = none;
  text =
      some
        "No AI-identified material risks were verified in the supplied text. This does not certify the contract as safe or legally compliant — review manually.";
}
summarize_risks (r ∷ rs) =
    let highest = max_score r.risk_score rs in
    record {
      level = some (max_by_score r rs).risk_level;
      score = some highest;
      text = some (
          str_append
            (str_append (show (length (r ∷ rs))) (str_append " risk" (plural (length (r ∷ rs)))))
            (str_append " identified; highest score " (show_ℤ highest)));
    }

unfoldable pub summarize : ValidatedAnalysis → Summary
unfolding summarize_risks
summarize analysis = summarize_risks analysis.risks
