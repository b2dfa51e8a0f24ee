-- ===== src/Common/Lists.antt =====
-- Lists measured by native numbers, tests and predicates over their elements.
use Prim.Native.Nat.{ℕ, zero, suc, ◌+◌, ◌≤◌}
use mathlib.Core.Path.{◌≡◌}
use mathlib.Core.Bool.{Bool, true, false, ◌&&◌, ◌||◌}
use mathlib.Core.Option.{Option, none, some}
use mathlib.Core.List.{List, [], ◌∷◌, ◌++◌}
use native.Mathlib.Omega.{arith}
use legaltech_contract_autom.Common.Tests.{if◌then◌else◌, Bool-cases}
use mathlib.Core.Logic.{inl, inr}

module _ {ℓ} {A : Type ℓ} where
  abbrev pub length : List A → ℕ
  length [] = 0
  length (x ∷ xs) = suc (length xs)

  abbrev pub take : ℕ → List A → List A
  take zero xs = []
  take (suc n) [] = []
  take (suc n) (x ∷ xs) = x ∷ take n xs

  abbrev pub drop : ℕ → List A → List A
  drop zero xs = xs
  drop (suc n) [] = []
  drop (suc n) (x ∷ xs) = drop n xs

  abbrev pub all : (A → Bool) → List A → Bool
  all p [] = true
  all p (x ∷ xs) = p x && all p xs

  abbrev pub any : (A → Bool) → List A → Bool
  any p [] = false
  any p (x ∷ xs) = p x || any p xs

  -- The elements that pass a test, in order.
  abbrev pub filter : (A → Bool) → List A → List A
  filter p [] = []
  filter p (x ∷ xs) = if p x then x ∷ filter p xs else filter p xs

  abbrev pub find : (A → Bool) → List A → Option A
  find p [] = none
  find p (x ∷ xs) = if p x then some x else find p xs

  abbrev pub count : (A → Bool) → List A → ℕ
  count p [] = 0
  count p (x ∷ xs) = if p x then suc (count p xs) else count p xs

  -- UPDATE ... SET change WHERE test
  abbrev pub update_if : (A → Bool) → (A → A) → List A → List A
  update_if test change [] = []
  update_if test change (x ∷ xs) = (if test x then change x else x) ∷ update_if test change xs

  pub length-append : (xs ys : List A) → length (xs ++ ys) ≡ length xs + length ys
  length-append [] ys = omega arith
  length-append (x ∷ xs) ys = omega (arith, length-append xs ys)

  pub length-take-le : (n : ℕ) (xs : List A) → length (take n xs) ≤ n
  length-take-le zero xs = omega arith
  length-take-le (suc n) [] = omega arith
  length-take-le (suc n) (x ∷ xs) = omega (arith, length-take-le n xs)

-- A predicate at every element.
abbrev pub All {ℓ κ} : {A : Type ℓ} → (A → Type κ) → List A → Type κ
All P [] = Unit
All P (x ∷ xs) = P x × All P xs

module _ {ℓ κ} {A : Type ℓ} (P : A → Type κ) where
  pub All-append : (xs ys : List A) → All P xs → All P ys → All P (xs ++ ys)
  All-append [] ys hx hy = hy
  All-append (x ∷ xs) ys hx hy = (hx.0, All-append xs ys hx.1 hy)

  pub All-take : (n : ℕ) (xs : List A) → All P xs → All P (take n xs)
  All-take zero xs h = tt
  All-take (suc n) [] h = tt
  All-take (suc n) (x ∷ xs) h = (h.0, All-take n xs h.1)

  pub All-filter : (p : A → Bool) (xs : List A) → All P xs → All P (filter p xs)
  All-filter p [] h = tt
  All-filter p (x ∷ xs) h = elim (Bool-cases (p x)) [
    | inl e ↦ rw e (h.0, All-filter p xs h.1)
    | inr e ↦ rw e (All-filter p xs h.1)
  ]

  -- A pointwise consequence holds at every element.
  pub All-map_pred {μ} :
      (Q : A → Type μ) (xs : List A) → ((x : A) → P x → Q x) → All P xs → All Q xs
  All-map_pred Q [] f h = tt
  All-map_pred Q (x ∷ xs) f h = (f x h.0, All-map_pred Q xs f h.1)

pub All-update_if {ℓ κ} :
    {A : Type ℓ} (P : A → Type κ) (test : A → Bool) (change : A → A) (xs : List A)
    → ((x : A) → P x → test x ≡ true → P (change x))
    → All P xs
    → All P (update_if test change xs)
All-update_if P test change [] keep h = tt
All-update_if P test change (x ∷ xs) keep h = elim (Bool-cases (test x)) [
  | inl e ↦ rw e (keep x h.0 e, All-update_if P test change xs keep h.1)
  | inr e ↦ rw e (h.0, All-update_if P test change xs keep h.1)
]

-- What a filter keeps passes its test.
pub filter_passes {ℓ} :
    {A : Type ℓ} (p : A → Bool) (xs : List A) → All (λ x. p x ≡ true) (filter p xs)
filter_passes p [] = tt
filter_passes p (x ∷ xs) = elim (Bool-cases (p x)) [
  | inl e ↦ rw e (e, filter_passes p xs)
  | inr e ↦ rw e (filter_passes p xs)
]

-- Two predicates together imply a third at every element.
pub All-map_pred₂ {ℓ κ μ ν} :
    {A : Type ℓ} (P : A → Type κ) (Q : A → Type μ) (R : A → Type ν) (xs : List A)
    → ((x : A) → P x → Q x → R x)
    → All P xs
    → All Q xs
    → All R xs
All-map_pred₂ P Q R [] f h k = tt
All-map_pred₂ P Q R (x ∷ xs) f h k = (f x h.0 k.0, All-map_pred₂ P Q R xs f h.1 k.1)
