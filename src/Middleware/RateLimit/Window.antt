-- ===== src/Middleware/RateLimit/Window.antt =====
-- src/middleware/rate_limit.rs: how many requests any window holds.
use mathlib.Core.Logic.{ite, if_pos, if_neg}
use mathlib.Core.Path.{subst}
use mathlib.Core.List.{append-nil, append_assoc}
use legaltech_contract_autom.Common.{
  ℕ, ◌-◌, ◌+◌, ◌≤◌, ◌<◌, ◌≡◌, refl, sym, inl, inr, Bool, List, [], ◌∷◌, ◌++◌, ltb, leb, ◌&&◌,
  filter, length, count, Bool-cases, arith,
}
use legaltech_contract_autom.Middleware.RateLimit.{new, Answer, allowed, limited, panicked}
use legaltech_contract_autom.Middleware.RateLimit.Refinement.{
  History, times, decide, ideal, run, run_ideal, Ordered, run-ideal, times-append,
}

-- An instant after `c`, and no later than a window after it.
abbrev pub within : ℕ → ℕ → ℕ → Bool
within window c t = ltb c t && leb t (c + window)

count-append :
    {A : Type 0} (p : A → Bool) (xs ys : List A) → count p (xs ++ ys) ≡ count p xs + count p ys
count-append p [] ys = omega arith
count-append p (x ∷ xs) ys = ground (arith, count-append p xs ys)

-- A window that ends at `now` or later starts after the cutoff.
count_le_recent :
    (window now c : ℕ) (ts : List ℕ)
    → now ≤ c + window
    → count (within window c) ts ≤ length (filter (ltb (now - window)) ts)
count_le_recent window now c [] h = omega arith
count_le_recent window now c (t ∷ ts) h = ground (arith, count_le_recent window now c ts h)

-- No window holds more than the limit.
abbrev pub Fits : ℕ → ℕ → List ℕ → Type 0
Fits max_requests window ts = (c : ℕ) → count (within window c) ts ≤ max_requests

Fits-append :
    (max_requests window now : ℕ) (ts : List ℕ)
    → Fits max_requests window ts
    → length (filter (ltb (now - window)) ts) < max_requests
    → Fits max_requests window (ts ++ now ∷ [])
Fits-append max_requests window now ts fits room c =
    ground
      (arith, count-append (within window c) ts (now ∷ []), fits c, count_le_recent window now c ts)

module _ {K : Type 0} (dec : Discrete K) where
  -- When the calls of a key were let through.
  unfoldable pub granted : K → List (ℕ × K) → List Answer → List ℕ
  granted key [] answers = []
  granted key (call ∷ calls) [] = []
  granted key ((now, k) ∷ calls) (allowed ∷ answers) =
      ite (dec k key) (now ∷ granted key calls answers) (granted key calls answers)
  granted key (call ∷ calls) (limited wait ∷ answers) = granted key calls answers
  granted key (call ∷ calls) (panicked ∷ answers) = granted key calls answers

  granted-decide :
      (key k : K) (window now : ℕ) (ts : List ℕ) (calls : List (ℕ × K)) (answers : List Answer)
      → granted key ((now, k) ∷ calls) (decide dec window now ts ∷ answers)
        ≡ granted key calls answers
  unfolding granted decide
  granted-decide key k window now [] calls answers = refl
  granted-decide key k window now (t ∷ ts) calls answers = refl

  module _ (m w : ℕ) (key : K) where
    Fits-times :
        (h : History K) (now : ℕ) (k k' : K)
        → Fits m w (times dec k' h)
        → length (filter (ltb (now - w)) (times dec k h)) < m
        → Fits m w (times dec k' (h ++ (k, now) ∷ []))
    Fits-times h now k k' fits room = elim (dec k k') [
      | yes e ↦
          rw (times-append dec k' k now h, if_pos (dec k k') e (now ∷ []) [])
            (Fits-append m w now (times dec k' h) fits
              (subst (λ x. length (filter (ltb (now - w)) (times dec x h)) < m) e room))
      | no e ↦
          rw
            (
              times-append dec k' k now h,
              if_neg (dec k k') e (now ∷ []) [],
              append-nil (times dec k' h),
            )
            fits
    ]

    granted_allowed :
        (h : History K) (now : ℕ) (k : K) (later : List ℕ)
        → times dec key h ++ ite (dec k key) (now ∷ later) later
          ≡ times dec key (h ++ (k, now) ∷ []) ++ later
    granted_allowed h now k later = elim (dec k key) [
      | yes e ↦
          rw
            (
              times-append dec key k now h,
              if_pos (dec k key) e (now ∷ []) [],
              if_pos (dec k key) e (now ∷ later) later,
            )
            (sym (append_assoc (times dec key h) (now ∷ []) later))
      | no e ↦
          rw
            (
              times-append dec key k now h,
              if_neg (dec k key) e (now ∷ []) [],
              if_neg (dec k key) e (now ∷ later) later,
              append-nil (times dec key h),
            )
            refl
    ]

    granted-ideal :
        (h : History K) (calls : List (ℕ × K))
        → ((k : K) → Fits m w (times dec k h))
        → Fits m w (times dec key h ++ granted key calls (run_ideal dec m w calls h))
    unfolding granted run_ideal ideal
    granted-ideal h [] fits = rw (append-nil (times dec key h)) (fits key)
    granted-ideal h ((now, k) ∷ calls) fits =
        elim (Bool-cases (ltb (length (filter (ltb (now - w)) (times dec k h))) m)) [
          | inl room ↦
              rw
                (
                  room,
                  granted_allowed h now k
                      (granted key calls (run_ideal dec m w calls (h ++ (k, now) ∷ []))),
                )
                (granted-ideal (h ++ (k, now) ∷ []) calls
                  (λ k'. Fits-times h now k k' (fits k') (ground arith)))
          | inr full ↦
              rw
                (
                  full,
                  granted-decide key k w now (filter (ltb (now - w)) (times dec k h)) calls
                      (run_ideal dec m w calls h),
                )
                (granted-ideal h calls fits)
        ]

  -- Calls on a new limiter with a positive limit, at instants that do not go back and are at least
  -- one window after the clock's earliest instant: in every window, wherever it starts, no key is
  -- let through more often than the limit.
  pub granted-Fits :
      (max_requests window start : ℕ) (calls : List (ℕ × K)) (key : K)
      → 0 < max_requests
      → window ≤ start
      → Ordered dec start calls
      → Fits max_requests window (granted key calls (run dec calls (new max_requests window)))
  unfolding granted times
  granted-Fits m w start calls key pos warm o =
      rw (run-ideal dec m w start calls pos warm o)
        (granted-ideal m w key [] calls (λ k c. omega arith))
