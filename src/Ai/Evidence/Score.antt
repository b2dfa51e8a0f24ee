-- ===== src/Ai/Evidence/Score.antt =====
-- The evidence check of src/ai/validation.rs against the score that the evaluation reports.
use Prim.Native.Char.{Char}
use native.Mathlib.Nat.{mul-div_right, le-div_iff_mul-le}
use legaltech_contract_autom.Common.{
  ℕ, suc, ◌*◌, ◌/◌, ◌≤◌, ◌<◌, String, Bool, false, ◌==◌, if◌then◌else◌, ◌≡◌, refl, sym, ◌↔◌, ◌∙◌,
  ap, List, [], ◌∷◌, count, length, ok, Bool-cases, inl, inr, arith,
}
use legaltech_contract_autom.Ai.Validation.{ValidatedAnalysis, ValidatedRisk}
use legaltech_contract_autom.Ai.Evidence.{
  evidence_matches_contract, verify_from, verify_risk_evidence, evidence_verification_score,
}

count-le-length : {A : Type 0} (p : A → Bool) (xs : List A) → count p xs ≤ length xs
count-le-length p [] = omega arith
count-le-length p (x ∷ xs) = ground (arith, count-le-length p xs)

-- n is total exactly if it is 100 percent of it.
percentage : (n total : ℕ) → 0 < total → n ≤ total → (n * 100 / total ≡ 100) ↔ (n ≡ total)
percentage n total h k = (up, down)
  where
    up : n * 100 / total ≡ 100 → n ≡ total
    up e = omega (arith, (le-div_iff_mul-le {k = total} {x = 100} {y = n * 100} h).0 (omega arith))

    down : n ≡ total → n * 100 / total ≡ 100
    down e = rw e (mul-div_right 100 h)

module _ (is_alphanumeric : Char → Bool) (to_lowercase : Char → String) where
  -- The evidence of a risk is found in the text.
  abbrev found : String → ValidatedRisk → Bool
  found text r = evidence_matches_contract is_alphanumeric to_lowercase r.evidence text

  verify_from-ok :
      (idx : ℕ) (rs : List ValidatedRisk) (text : String)
      → verify_from is_alphanumeric to_lowercase idx rs text ≡ ok tt
      → count (found text) rs ≡ length rs
  unfolding verify_from
  verify_from-ok idx [] text h = refl
  verify_from-ok idx (r ∷ rs) text h = elim (Bool-cases (found text r)) [
    | inl e ↦ rw e (ap suc (verify_from-ok (suc idx) rs text (rw e at h)))
    | inr e ↦ absurd (ground arith)
  ]

  ok-verify_from :
      (idx : ℕ) (rs : List ValidatedRisk) (text : String)
      → count (found text) rs ≡ length rs
      → verify_from is_alphanumeric to_lowercase idx rs text ≡ ok tt
  unfolding verify_from
  ok-verify_from idx [] text h = refl
  ok-verify_from idx (r ∷ rs) text h = elim (Bool-cases (found text r)) [
    | inl e ↦
        let rest : count (found text) rs ≡ length rs = ground arith in
        rw e (ok-verify_from (suc idx) rs text rest)
    | inr e ↦ absurd (ground (arith, count-le-length (found text) rs))
  ]

  score_of_list :
      (rs : List ValidatedRisk) (text : String)
      → (verify_from is_alphanumeric to_lowercase 0 rs text ≡ ok tt)
        ↔ ((if length rs == 0 then 100 else count (found text) rs * 100 / length rs) ≡ 100)
  score_of_list [] text = ((λ h. refl), λ h. ok-verify_from 0 [] text refl)
  score_of_list (r ∷ rs) text =
      let (all_found, is_full) =
        percentage (count (found text) (r ∷ rs)) (suc (length rs)) (omega arith)
          (count-le-length (found text) (r ∷ rs)) in
      let some_risk : (suc (length rs) == 0) ≡ false = ground arith in
      let same : (if suc (length rs) == 0
            then 100
            else count (found text) (r ∷ rs) * 100 / suc (length rs))
          ≡ count (found text) (r ∷ rs) * 100 / suc (length rs) =
        ap (λ b. if b then 100 else count (found text) (r ∷ rs) * 100 / suc (length rs))
          some_risk in
      (
        (λ h. same ∙ is_full (verify_from-ok 0 (r ∷ rs) text h)),
        λ e. ok-verify_from 0 (r ∷ rs) text (all_found (sym same ∙ e)),
      )

  -- The check accepts an analysis exactly if the evaluation scores its evidence at 100 percent.
  pub verify-iff-score :
      (v : ValidatedAnalysis) (text : String)
      → (verify_risk_evidence is_alphanumeric to_lowercase v text ≡ ok tt)
        ↔ (evidence_verification_score is_alphanumeric to_lowercase v text ≡ 100)
  unfolding verify_risk_evidence evidence_verification_score
  verify-iff-score v text = score_of_list v.risks text
