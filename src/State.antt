-- ===== src/State.antt =====
-- src/state.rs: the rate limiters of the application, built from its configuration.
-- A duration is in nanoseconds. Keys are addresses for the first two, user ids for the others.
use Prim.Native.Nat.{◌*◌}
use native.Mathlib.Decide.{ℕ_discrete}
use legaltech_contract_autom.Common.{
  ℕ, ◌≤◌, ◌<◌, ◌≡◌, refl, ok, Bool, true, false, List, [], ◌∷◌, ltb, length, filter, All,
  Bool-cases, inl, inr, arith, ◌++◌, ◌-◌,
}
use legaltech_contract_autom.Config.{Config, load}
use legaltech_contract_autom.Config.Parse.{Lookup}
use legaltech_contract_autom.Config.Server.{RateLimits}
use legaltech_contract_autom.Config.Bounds.{LimitsAreValid, load-IsValid}
use legaltech_contract_autom.Middleware.RateLimit.{
  KeyedRateLimiter, new, Answer, allowed, limited, panicked,
}
use legaltech_contract_autom.Middleware.RateLimit.Refinement.{
  History, times, decide, ideal, run, run_ideal, Ordered, run-ideal,
}

abbrev pub seconds : ℕ → ℕ
seconds n = n * 1_000_000_000

pub record Limiters : Type 0 where
  pub login_rate_limiter : KeyedRateLimiter ℕ
  pub register_rate_limiter : KeyedRateLimiter ℕ
  pub analyze_rate_limiter : KeyedRateLimiter ℕ
  pub channel_test_rate_limiter : KeyedRateLimiter ℕ
  pub channel_mutation_rate_limiter : KeyedRateLimiter ℕ

-- The limiters of AppState::new.
unfoldable pub limiters : RateLimits → Limiters
limiters l = record {
  login_rate_limiter = new l.login_per_minute (seconds 60);
  register_rate_limiter = new l.register_per_hour (seconds 3600);
  analyze_rate_limiter = new l.analyze_per_hour (seconds 3600);
  channel_test_rate_limiter = new l.channel_test_per_minute (seconds 60);
  channel_mutation_rate_limiter = new l.channel_mutation_per_hour (seconds 3600);
}

abbrev pub is_panic : Answer → Bool
is_panic panicked = true
is_panic allowed = false
is_panic (limited wait) = false

-- The ideal limiter has someone to wait for whenever it rejects.
ideal-calm :
    (m window : ℕ) (calls : List (ℕ × ℕ)) (h : History ℕ)
    → 0 < m
    → All (λ a. is_panic a ≡ false) (run_ideal ℕ_discrete m window calls h)
unfolding run_ideal ideal
ideal-calm m window [] h pos = tt
ideal-calm m window ((now, key) ∷ calls) h pos =
    elim (Bool-cases (ltb (length (filter (ltb (now - window)) (times ℕ_discrete key h))) m)) [
      | inl room ↦ rw room (refl, ideal-calm m window calls (h ++ (key, now) ∷ []) pos)
      | inr full ↦ rw full (
        waits (filter (ltb (now - window)) (times ℕ_discrete key h)) full,
        ideal-calm m window calls h pos,
      )
    ]
  where
    waits :
        (ts : List ℕ)
        → ltb (length ts) m ≡ false
        → is_panic (decide ℕ_discrete window now ts) ≡ false
    waits [] e = ground arith
    waits (t ∷ ts) e = refl

-- A limiter answers every call.
abbrev pub IsCalm : List (ℕ × ℕ) → KeyedRateLimiter ℕ → Type 0
IsCalm calls limiter = All (λ a. is_panic a ≡ false) (run ℕ_discrete calls limiter)

new-IsCalm :
    (m window start : ℕ) (calls : List (ℕ × ℕ))
    → ltb 0 m ≡ true
    → window ≤ start
    → Ordered ℕ_discrete start calls
    → IsCalm calls (new m window)
new-IsCalm m window start calls pos warm o =
    rw (run-ideal ℕ_discrete m window start calls (ground arith) warm o)
      (ideal-calm m window calls [] (ground arith))

-- With any configuration that `load` accepts, none of the five rate limiters ever panics, whatever
-- calls it gets at instants that do not go back and are at least an hour after the clock's earliest.
pub limiters-IsCalm :
    (lookup : Lookup) (config : Config) (start : ℕ) (calls : List (ℕ × ℕ))
    → load lookup ≡ ok config
    → seconds 3600 ≤ start
    → Ordered ℕ_discrete start calls
    → IsCalm calls (limiters config.limits).login_rate_limiter
      × IsCalm calls (limiters config.limits).register_rate_limiter
      × IsCalm calls (limiters config.limits).analyze_rate_limiter
      × IsCalm calls (limiters config.limits).channel_test_rate_limiter
      × IsCalm calls (limiters config.limits).channel_mutation_rate_limiter
unfolding limiters
limiters-IsCalm lookup config start calls e warm o =
    let v : LimitsAreValid config.limits = (load-IsValid lookup config e).0.limits in
    (
      new-IsCalm _ (seconds 60) start calls (ground (arith, v.login)) (omega arith) o,
      new-IsCalm _ (seconds 3600) start calls (ground (arith, v.register)) warm o,
      new-IsCalm _ (seconds 3600) start calls (ground (arith, v.analyze)) warm o,
      new-IsCalm _ (seconds 60) start calls (ground (arith, v.channel_test)) (omega arith) o,
      new-IsCalm _ (seconds 3600) start calls (ground (arith, v.channel_mutation)) warm o,
    )
