-- ===== src/Worker/Outcome/Backoff.antt =====
-- The delay that src/worker/outcome.rs computes before a retry.
use native.Mathlib.Nat.{pow-suc}
use legaltech_contract_autom.Common.{
  ℕ, zero, suc, ◌+◌, ◌*◌, ◌^◌, ◌≡◌, ◌≤◌, ◌<◌, min, arith, ℤ, pos, Option, none, refl, ◌∙◌,
}
use legaltech_contract_autom.Notifications.Channel.{DeliveryError, retry_after_seconds}
use legaltech_contract_autom.Worker.Outcome.{jitter, capped, compute_backoff}

pow2-pos : (n : ℕ) → 1 ≤ 2 ^ n
pow2-pos zero = omega arith
pow2-pos (suc n) = omega (arith, pow-suc 2 n, pow2-pos n)

-- From the fourth attempt on the exponential part is past its cap.
pow2_large : (n : ℕ) → 16 ≤ 2 ^ suc (suc (suc (suc n)))
pow2_large n = omega (
  arith,
  pow2-pos n,
  pow-suc 2 n,
  pow-suc 2 (suc n),
  pow-suc 2 (suc (suc n)),
  pow-suc 2 (suc (suc (suc n))),
)

-- From the tenth attempt on the exponent is clamped.
capped_clamped : (attempt : ℕ) → 10 ≤ attempt → capped attempt ≡ 300
unfolding capped
capped_clamped attempt h = let at_ten : min attempt 10 ≡ 10 = omega arith in rw at_ten refl

-- The saturating arithmetic and the clamp of the exponent at 10 never change the capped delay.
pub capped_lem : (attempt : ℕ) → capped attempt ≡ min (30 * 2 ^ attempt) 300
unfolding capped
capped_lem zero = refl
capped_lem (suc zero) = refl
capped_lem (suc (suc zero)) = refl
capped_lem (suc (suc (suc zero))) = refl
capped_lem (suc (suc (suc (suc zero)))) = refl
capped_lem (suc (suc (suc (suc (suc zero))))) = refl
capped_lem (suc (suc (suc (suc (suc (suc zero)))))) = refl
capped_lem (suc (suc (suc (suc (suc (suc (suc zero))))))) = refl
capped_lem (suc (suc (suc (suc (suc (suc (suc (suc zero)))))))) = refl
capped_lem (suc (suc (suc (suc (suc (suc (suc (suc (suc zero))))))))) = refl
capped_lem (suc (suc (suc (suc (suc (suc (suc (suc (suc (suc n)))))))))) =
    let a = suc (suc (suc (suc (suc (suc (suc (suc (suc (suc n))))))))) in
    capped_clamped a (omega arith)
    ∙ at_least (2 ^ a) (pow2_large (suc (suc (suc (suc (suc (suc n)))))))
  where
    at_least : (p : ℕ) → 16 ≤ p → 300 ≡ min (30 * p) 300
    at_least p h = omega arith

jitter-le-one : (n : ℕ) → n < 2_000_000 → jitter n ≤ 1
unfolding jitter
jitter-le-one n h = omega arith

-- With no hint from the provider the delay is the capped exponential plus at most one second: the
-- microseconds of a clock reading stay below two million, leap seconds included.
pub compute_backoff_lem :
    (duration_seconds : ℤ → Option ℤ) (e : DeliveryError) (attempt subsec_micros : ℕ)
    → retry_after_seconds e ≡ none
    → subsec_micros < 2_000_000
    → (extra : ℕ) × (extra ≤ 1)
      × (compute_backoff duration_seconds e attempt subsec_micros
          ≡ duration_seconds (pos (min (30 * 2 ^ attempt) 300 + extra)))
unfolding compute_backoff
compute_backoff_lem duration_seconds e attempt subsec_micros h bound =
    (jitter subsec_micros, jitter-le-one subsec_micros bound, ground (arith, capped_lem attempt))
