-- ===== src/Common/Sorting.antt =====
-- Insertion sort by a Boolean order: what ORDER BY promises of a result.
use Prim.Native.Nat.{ℕ, zero, suc}
use mathlib.Core.Path.{◌≡◌, refl}
use mathlib.Core.Logic.{inl, inr}
use mathlib.Core.Bool.{Bool, true, false}
use mathlib.Core.List.{List, [], ◌∷◌}
use native.Mathlib.Omega.{arith}
use legaltech_contract_autom.Common.Tests.{if◌then◌else◌, Bool-cases}
use legaltech_contract_autom.Common.Lists.{All, All-map_pred, take, drop, count}

module _ {ℓ} {A : Type ℓ} where
  abbrev pub insert_by : (A → A → Bool) → A → List A → List A
  insert_by before x [] = x ∷ []
  insert_by before x (y ∷ ys) = if before x y then x ∷ y ∷ ys else y ∷ insert_by before x ys

  abbrev pub sort_by : (A → A → Bool) → List A → List A
  sort_by before [] = []
  sort_by before (x ∷ xs) = insert_by before x (sort_by before xs)

  abbrev pub IsSorted : (A → A → Bool) → List A → Type ℓ
  IsSorted before [] = Unit
  IsSorted before (x ∷ xs) = All (λ y. before x y ≡ true) xs × IsSorted before xs

module _ {ℓ κ} {A : Type ℓ} (P : A → Type κ) (before : A → A → Bool) where
  All-insert_by : (x : A) (xs : List A) → P x → All P xs → All P (insert_by before x xs)
  All-insert_by x [] p h = (p, tt)
  All-insert_by x (y ∷ ys) p h = elim (Bool-cases (before x y)) [
    | inl e ↦ rw e (p, h)
    | inr e ↦ rw e (h.0, All-insert_by x ys p h.1)
  ]

  pub All-sort_by : (xs : List A) → All P xs → All P (sort_by before xs)
  All-sort_by [] h = tt
  All-sort_by (x ∷ xs) h = All-insert_by x (sort_by before xs) h.0 (All-sort_by xs h.1)

module _ {ℓ} {A : Type ℓ} (before : A → A → Bool) (p : A → Bool) where
  count-insert_by : (x : A) (xs : List A) → count p (insert_by before x xs) ≡ count p (x ∷ xs)
  count-insert_by x [] = refl
  count-insert_by x (y ∷ ys) = ground (arith, count-insert_by x ys)

  -- Sorting keeps every element, as often.
  pub count-sort_by : (xs : List A) → count p (sort_by before xs) ≡ count p xs
  count-sort_by [] = refl
  count-sort_by (x ∷ xs) = ground (arith, count-insert_by x (sort_by before xs), count-sort_by xs)

module _ {ℓ} {A : Type ℓ} (before : A → A → Bool)
    (total : (x y : A) → before x y ≡ false → before y x ≡ true)
    (trans : (x y z : A) → before x y ≡ true → before y z ≡ true → before x z ≡ true) where
  IsSorted-insert_by :
      (x : A) (xs : List A) → IsSorted before xs → IsSorted before (insert_by before x xs)
  IsSorted-insert_by x [] h = (tt, tt)
  IsSorted-insert_by x (y ∷ ys) h = elim (Bool-cases (before x y)) [
    | inl e ↦ rw e (
      (
        e,
        All-map_pred (λ z. before y z ≡ true) (λ z. before x z ≡ true) ys (λ z q. trans x y z e q)
            h.0,
      ),
      h,
    )
    | inr e ↦ rw e (
      All-insert_by (λ z. before y z ≡ true) before x ys (total x y e) h.0,
      IsSorted-insert_by x ys h.1,
    )
  ]

  pub IsSorted-sort_by : (xs : List A) → IsSorted before (sort_by before xs)
  IsSorted-sort_by [] = tt
  IsSorted-sort_by (x ∷ xs) = IsSorted-insert_by x (sort_by before xs) (IsSorted-sort_by xs)

module _ {ℓ} {A : Type ℓ} (before : A → A → Bool) where
  All-drop :
      (x : A) (n : ℕ) (xs : List A)
      → All (λ y. before x y ≡ true) xs
      → All (λ y. before x y ≡ true) (drop n xs)
  All-drop x zero xs h = h
  All-drop x (suc n) [] h = tt
  All-drop x (suc n) (y ∷ ys) h = All-drop x n ys h.1

  -- The first `n` of a sorted list stand before all the others.
  pub take-before-drop :
      (n : ℕ) (xs : List A)
      → IsSorted before xs
      → All (λ x. All (λ y. before x y ≡ true) (drop n xs)) (take n xs)
  take-before-drop zero xs h = tt
  take-before-drop (suc n) [] h = tt
  take-before-drop (suc n) (x ∷ xs) h = (All-drop x n xs h.0, take-before-drop n xs h.1)
