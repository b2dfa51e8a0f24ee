-- ===== src/Services/Summary/Highest.antt =====
-- The columns that src/services/analysis.rs computes from the risks agree with each other.
use mathlib.Core.Path.{subst⁻¹}
use legaltech_contract_autom.Common.{
  ℤ, pos, negsuc, Bool, true, false, ◌≡◌, refl, sym, ◌∙◌, ◌⊎◌, inl, inr, Bool-cases, none, some,
  if◌then◌else◌, List, [], ◌∷◌, All, arith, ap,
}
use legaltech_contract_autom.Ai.Validation.{ValidatedRisk, ValidatedAnalysis}
use legaltech_contract_autom.Services.Summary.{
  leb_ℤ, max_score, max_by_score, summarize_risks, summarize,
}

leb_ℤ-refl : (a : ℤ) → leb_ℤ a a ≡ true
unfolding leb_ℤ
leb_ℤ-refl (pos n) = ground arith
leb_ℤ-refl (negsuc n) = ground arith

leb_ℤ-trans : (a b c : ℤ) → leb_ℤ a b ≡ true → leb_ℤ b c ≡ true → leb_ℤ a c ≡ true
unfolding leb_ℤ
leb_ℤ-trans (pos a) (pos b) (pos c) h k = ground arith
leb_ℤ-trans (pos a) (pos b) (negsuc c) h k = absurd (cc)
leb_ℤ-trans (pos a) (negsuc b) c h k = absurd (cc)
leb_ℤ-trans (negsuc a) b (pos c) h k = refl
leb_ℤ-trans (negsuc a) (pos b) (negsuc c) h k = absurd (cc)
leb_ℤ-trans (negsuc a) (negsuc b) (negsuc c) h k = ground arith

leb_ℤ-total : (a b : ℤ) → leb_ℤ a b ≡ false → leb_ℤ b a ≡ true
unfolding leb_ℤ
leb_ℤ-total (pos a) (pos b) h = ground arith
leb_ℤ-total (pos a) (negsuc b) h = refl
leb_ℤ-total (negsuc a) (pos b) h = absurd (cc)
leb_ℤ-total (negsuc a) (negsuc b) h = ground arith

-- The risk is one of the list.
abbrev pub IsAmong : ValidatedRisk → List ValidatedRisk → Type 0
IsAmong r [] = ⊥
IsAmong r (x ∷ xs) = (x ≡ r) ⊎ IsAmong r xs

abbrev pub ScoresAtMost : ℤ → ValidatedRisk → Type 0
ScoresAtMost most r = leb_ℤ r.risk_score most ≡ true

-- The end and one round of each loop.
by_score_nil : (best : ValidatedRisk) → max_by_score best [] ≡ best
unfolding max_by_score
by_score_nil best = refl

score_nil : (best : ℤ) → max_score best [] ≡ best
unfolding max_score
score_nil best = refl

module _ (r : ValidatedRisk) (rs : List ValidatedRisk) where
  by_score-step :
      (best : ValidatedRisk) {b : Bool}
      → leb_ℤ best.risk_score r.risk_score ≡ b
      → max_by_score best (r ∷ rs) ≡ max_by_score (if b then r else best) rs
  unfolding max_by_score
  by_score-step best e = ap (λ b. max_by_score (if b then r else best) rs) e

  score-step :
      (best : ℤ) {b : Bool}
      → leb_ℤ best r.risk_score ≡ b
      → max_score best (r ∷ rs) ≡ max_score (if b then r.risk_score else best) rs
  unfolding max_score
  score-step best e = ap (λ b. max_score (if b then r.risk_score else best) rs) e

-- The two passes over the list pick the same score.
max_by_score-score :
    (best : ValidatedRisk) (rs : List ValidatedRisk)
    → (max_by_score best rs).risk_score ≡ max_score best.risk_score rs
max_by_score-score best [] =
    ap (λ (m : ValidatedRisk). m.risk_score) (by_score_nil best) ∙ sym (score_nil best.risk_score)
max_by_score-score best (r ∷ rs) = elim (Bool-cases (leb_ℤ best.risk_score r.risk_score)) [
  | inl e ↦
      ap (λ (m : ValidatedRisk). m.risk_score) (by_score-step r rs best e)
      ∙ max_by_score-score r rs
      ∙ sym (score-step r rs best.risk_score e)
  | inr e ↦
      ap (λ (m : ValidatedRisk). m.risk_score) (by_score-step r rs best e)
      ∙ max_by_score-score best rs
      ∙ sym (score-step r rs best.risk_score e)
]

weaken :
    {m best r : ValidatedRisk} (rs : List ValidatedRisk)
    → IsAmong m (best ∷ rs)
    → IsAmong m (best ∷ r ∷ rs)
weaken rs (inl e) = inl e
weaken rs (inr h) = inr (inr h)

max_by_score-IsAmong :
    (best : ValidatedRisk) (rs : List ValidatedRisk) → IsAmong (max_by_score best rs) (best ∷ rs)
max_by_score-IsAmong best [] = inl (sym (by_score_nil best))
max_by_score-IsAmong best (r ∷ rs) = elim (Bool-cases (leb_ℤ best.risk_score r.risk_score)) [
  | inl e ↦
      subst⁻¹ (λ m. IsAmong m (best ∷ r ∷ rs)) (by_score-step r rs best e)
        (inr (max_by_score-IsAmong r rs))
  | inr e ↦
      subst⁻¹ (λ m. IsAmong m (best ∷ r ∷ rs)) (by_score-step r rs best e)
        (weaken rs (max_by_score-IsAmong best rs))
]

-- The highest is at least the first and all others.
abbrev IsBound : ℤ → List ValidatedRisk → ℤ → Type 0
IsBound best rs most = (leb_ℤ best most ≡ true) × All (ScoresAtMost most) rs

max_score-IsBound : (best : ℤ) (rs : List ValidatedRisk) → IsBound best rs (max_score best rs)
max_score-IsBound best [] =
    (subst⁻¹ (λ m. leb_ℤ best m ≡ true) (score_nil best) (leb_ℤ-refl best), tt)
max_score-IsBound best (r ∷ rs) = elim (Bool-cases (leb_ℤ best r.risk_score)) [
  | inl e ↦
      let (first, others) = max_score-IsBound r.risk_score rs in
      subst⁻¹ (IsBound best (r ∷ rs)) (score-step r rs best e)
        (leb_ℤ-trans best r.risk_score _ e first, (first, others))
  | inr e ↦
      let (first, others) = max_score-IsBound best rs in
      subst⁻¹ (IsBound best (r ∷ rs)) (score-step r rs best e)
        (first, (leb_ℤ-trans r.risk_score best _ (leb_ℤ-total best r.risk_score e) first, others))
]

-- With no risks there is neither a level nor a score. Otherwise both are those of one risk of the
-- analysis, and no risk scores higher.
pub summarize-highest :
    (v : ValidatedAnalysis)
    → ((v.risks ≡ []) × ((summarize v).level ≡ none) × ((summarize v).score ≡ none))
      ⊎ ((m : ValidatedRisk) × IsAmong m v.risks
          × ((summarize v).level ≡ some m.risk_level)
          × ((summarize v).score ≡ some m.risk_score)
          × All (ScoresAtMost m.risk_score) v.risks)
unfolding summarize summarize_risks
summarize-highest v = go v.risks
  where
    go :
        (rs : List ValidatedRisk)
        → ((rs ≡ []) × ((summarize_risks rs).level ≡ none) × ((summarize_risks rs).score ≡ none))
          ⊎ ((m : ValidatedRisk) × IsAmong m rs
              × ((summarize_risks rs).level ≡ some m.risk_level)
              × ((summarize_risks rs).score ≡ some m.risk_score)
              × All (ScoresAtMost m.risk_score) rs)
    go [] = inl (refl, refl, refl)
    go (r ∷ rs) =
        let same = max_by_score-score r rs in
        inr (
          max_by_score r rs,
          max_by_score-IsAmong r rs,
          refl,
          ap some (sym same),
          subst⁻¹ (IsBound r.risk_score rs) same (max_score-IsBound r.risk_score rs),
        )
