-- ===== src/Auth/Handlers/Limits.antt =====
-- src/auth/handlers.rs: the rate limits before `register` and `login`. An address is a number.
use legaltech_contract_autom.Common.{ℕ, ◌/◌, max, Option, none, some, Result, ok, err}
use native.Mathlib.Decide.{ℕ_discrete}
use legaltech_contract_autom.Errors.{AppError, rate_limited}
use legaltech_contract_autom.Db.Session.{Db, World}
use legaltech_contract_autom.Middleware.RateLimit.{
  KeyedRateLimiter, Answer, allowed, limited, panicked, check,
}

-- The reply of a handler, unless it panics.
pub data Reply (A : Type 0) : Type 0 where
  replied : Result AppError A → Reply A
  aborted : Reply A

-- retry_after.as_secs().max(1), of a duration in nanoseconds
abbrev pub retry_after_seconds : ℕ → ℕ
retry_after_seconds wait = max (wait / 1_000_000_000) 1

module _ {A : Type 0} where
  unfoldable pub answered : Result AppError (Option A) → Reply A
  answered (err e) = replied (err e)
  answered (ok none) = aborted
  answered (ok (some a)) = replied (ok a)

  unfoldable pub after_check : Answer → Db AppError (Option A) → World → Reply A × World
  unfolding answered
  after_check allowed handler w = let (r, w') = handler w in (answered r, w')
  after_check (limited wait) handler w =
      (replied (err (rate_limited (retry_after_seconds wait))), w)
  after_check panicked handler w = (aborted, w)

  -- check_rate_limit, then the rest of the handler.
  unfoldable pub check_rate_limit :
      (instant addr : ℕ)
      → KeyedRateLimiter ℕ
      → Db AppError (Option A)
      → World
      → Reply A × KeyedRateLimiter ℕ × World
  unfolding after_check
  check_rate_limit instant addr limiter handler w =
      let (answer, limiter') = check ℕ_discrete instant addr limiter in
      let (reply, w') = after_check answer handler w in (reply, limiter', w')
