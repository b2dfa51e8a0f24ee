-- ===== src/Middleware/RateLimit/Entries.antt =====
-- src/middleware/rate_limit.rs: the entries of the limiter's map.
use mathlib.Core.Logic.{ite, if_pos, if_neg}
use legaltech_contract_autom.Common.{
  ◌≡◌, refl, ◌≢◌, inl, inr, Bool, false, List, [], ◌∷◌, filter, any, All, All-filter, All-map_pred,
  Bool-cases, arith,
}

filter_none : {V : Type 0} (p : V → Bool) (vs : List V) → any p vs ≡ false → filter p vs ≡ []
filter_none p [] h = refl
filter_none p (v ∷ vs) h = ground (arith, filter_none p vs)

module _ {K V : Type 0} (dec : Discrete K) where
  -- `map.entry(key).or_default()`
  unfoldable pub entry : K → List (K × List V) → List V
  entry key [] = []
  entry key ((k, v) ∷ map) = ite (dec k key) v (entry key map)

  unfoldable pub set : K → List V → List (K × List V) → List (K × List V)
  set key v [] = (key, v) ∷ []
  set key v ((k, u) ∷ map) = ite (dec k key) ((k, v) ∷ map) ((k, u) ∷ set key v map)

  -- Each key has one entry.
  abbrev pub Distinct : List (K × List V) → Type 0
  Distinct [] = Unit
  Distinct ((k, v) ∷ map) = All (λ e. e.0 ≢ k) map × Distinct map

  pub entry-set_self :
      (key : K) (v : List V) (map : List (K × List V)) → entry key (set key v map) ≡ v
  unfolding entry set
  entry-set_self key v [] = ground arith
  entry-set_self key v ((k, u) ∷ map) = ground (arith, entry-set_self key v map)

  pub entry-set_ne :
      (key other : K) (v : List V) (map : List (K × List V))
      → other ≢ key
      → entry other (set key v map) ≡ entry other map
  unfolding entry set
  entry-set_ne key other v [] ne = ground arith
  entry-set_ne key other v ((k, u) ∷ map) ne = ground (arith, entry-set_ne key other v map)

  All-set :
      (P : K → Type 0) (key : K) (v : List V) (map : List (K × List V))
      → P key
      → All (λ e. P e.0) map
      → All (λ e. P e.0) (set key v map)
  unfolding set
  All-set P key v [] p h = (p, tt)
  All-set P key v ((k, u) ∷ map) p h = elim (dec k key) [
    | yes e ↦ rw (if_pos _ e) h
    | no e ↦ rw (if_neg _ e) (h.0, All-set P key v map p h.1)
  ]

  pub Distinct-set :
      (key : K) (v : List V) (map : List (K × List V)) → Distinct map → Distinct (set key v map)
  unfolding set
  Distinct-set key v [] h = (tt, tt)
  Distinct-set key v ((k, u) ∷ map) h = elim (dec k key) [
    | yes e ↦ rw (if_pos _ e) h
    | no e ↦
        rw (if_neg _ e)
          (All-set (λ x. x ≢ k) key v map (λ p. e (cc)) h.0, Distinct-set key v map h.1)
  ]

  pub Distinct-filter :
      (p : (K × List V) → Bool) (map : List (K × List V)) → Distinct map → Distinct (filter p map)
  Distinct-filter p [] h = tt
  Distinct-filter p ((k, v) ∷ map) h = elim (Bool-cases (p (k, v))) [
    | inl e ↦ rw e (All-filter (λ e. e.0 ≢ k) p map h.0, Distinct-filter p map h.1)
    | inr e ↦ rw e (Distinct-filter p map h.1)
  ]

  entry_absent : (key : K) (map : List (K × List V)) → All (λ e. e.0 ≢ key) map → entry key map ≡ []
  unfolding entry
  entry_absent key [] h = refl
  entry_absent key ((k, v) ∷ map) h = rw (if_neg _ h.0) (entry_absent key map h.1)

  -- Dropping the keys without a passing element loses no passing element.
  pub filter-entry-filter :
      (p : V → Bool) (key : K) (map : List (K × List V))
      → Distinct map
      → filter p (entry key (filter (λ e. any p e.1) map)) ≡ filter p (entry key map)
  unfolding entry
  filter-entry-filter p key [] h = refl
  filter-entry-filter p key ((k, v) ∷ map) h = elim (Bool-cases (any p v)) [
    | inl e ↦ rw e (ground (arith, filter-entry-filter p key map h.1))
    | inr e ↦ rw e (elim (dec k key) [
      | yes q ↦
          rw
            (
              if_pos _ q,
              filter_none p v e,
              entry_absent key (filter (λ x. any p x.1) map) (
                  All-filter (λ x. x.0 ≢ key) (λ x. any p x.1) map
                    (All-map_pred (λ x. x.0 ≢ k) (λ x. x.0 ≢ key) map (λ x ne same. ne (cc)) h.0)),
            )
            refl
      | no q ↦ rw (if_neg _ q) (filter-entry-filter p key map h.1)
    ])
  ]
