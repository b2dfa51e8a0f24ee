-- ===== src/Services/Retry/Bounds.antt =====
-- How often src/services/analysis.rs calls the provider, and how long it waits.
use native.Mathlib.Nat.{add-zero, zero-add}
use legaltech_contract_autom.Common.{
  ap, ℕ, zero, suc, ◌+◌, ◌*◌, ◌≤◌, min, String, Bool, true, false, ◌≡◌, refl, [], ◌∷◌, All, length,
  Result, ok, err, arith, Bool-cases, inl, inr, ◌⊎◌,
}
use legaltech_contract_autom.Ai.Provider.{AiAnalysis, AiError, AiProvider, is_retryable}
use legaltech_contract_autom.Services.Retry.{Answer, answered, retry_loop, call_with_retries}

-- What an answer of the loop owes to the provider: its result is the last call's, each earlier call
-- failed in a way that may pass, and between two calls it slept.
record IsFaithful (provider : AiProvider) (raw_text : String) (left attempt : ℕ) (a : Answer)
    : Type 0 where
  pub made : a.calls ≡ attempt + length a.delays + 1
  pub bounded : length a.delays ≤ left
  pub last : provider.analyze (attempt + length a.delays) raw_text ≡ a.result
  pub used_up : (e : AiError) → a.result ≡ err e → is_retryable e ≡ true → length a.delays ≡ left
  pub waits : All (λ d. d ≤ 5000) a.delays

module _ (provider : AiProvider) (raw_text : String) where
  -- The loop ends with the answer of this call.
  stops :
      (left attempt : ℕ) (r : Result AiError AiAnalysis)
      → provider.analyze attempt raw_text ≡ r
      → ((e : AiError) → r ≡ err e → is_retryable e ≡ true → left ≡ 0)
      → IsFaithful provider raw_text left attempt
          (record { result = r; delays = []; calls = attempt + 1 })
  stops left attempt r now spent = record {
    made = omega arith;
    bounded = omega arith;
    last = rw add-zero now;
    used_up = λ e q h. omega (arith, spent e q h);
    waits = tt;
  }

  -- The loop sleeps and goes on.
  goes_on :
      (left attempt delay : ℕ) (a : Answer)
      → delay ≤ 5000
      → IsFaithful provider raw_text left (attempt + 1) a
      → IsFaithful provider raw_text (suc left) attempt (record a { delays = delay ∷ a.delays })
  goes_on left attempt delay a h f =
      let shift : attempt + suc (length a.delays) ≡ attempt + 1 + length a.delays = omega arith in
      record {
        made = omega (arith, f.made);
        bounded = omega (arith, f.bounded);
        last = rw shift f.last;
        used_up = λ e q r. ap suc (f.used_up e q r);
        waits = (h, f.waits);
      }

  answered-IsFaithful :
      (left attempt delay : ℕ) (retry : Answer) (r : Result AiError AiAnalysis)
      → provider.analyze attempt raw_text ≡ r
      → delay ≤ 5000
      → IsFaithful provider raw_text left (attempt + 1) retry
      → IsFaithful provider raw_text (suc left) attempt (answered attempt true delay retry r)
  unfolding answered
  answered-IsFaithful left attempt delay retry (ok a) now h f =
      stops (suc left) attempt (ok a) now (λ e q r. absurd (cc))
  answered-IsFaithful left attempt delay retry (err e) now h f =
      elim (Bool-cases (is_retryable e)) [
        | inl q ↦ rw q (goes_on left attempt delay retry h f)
        | inr q ↦ rw q (stops (suc left) attempt (err e) now (λ e' same r. absurd (ground arith)))
      ]

  answered_last :
      (attempt delay : ℕ) (retry : Answer) (r : Result AiError AiAnalysis)
      → provider.analyze attempt raw_text ≡ r
      → IsFaithful provider raw_text 0 attempt (answered attempt false delay retry r)
  unfolding answered
  answered_last attempt delay retry (ok a) now = stops 0 attempt (ok a) now (λ e q r. refl)
  answered_last attempt delay retry (err e) now = elim (Bool-cases (is_retryable e)) [
    | inl q ↦ rw q (stops 0 attempt (err e) now (λ e' same r. refl))
    | inr q ↦ rw q (stops 0 attempt (err e) now (λ e' same r. refl))
  ]

  retry_loop-IsFaithful :
      (left attempt delay : ℕ)
      → delay ≤ 5000
      → IsFaithful provider raw_text left attempt (retry_loop provider raw_text left attempt delay)
  unfolding retry_loop
  retry_loop-IsFaithful zero attempt delay h = answered_last attempt delay _ _ refl
  retry_loop-IsFaithful (suc left) attempt delay h =
      answered-IsFaithful left attempt delay _ _ refl h
        (retry_loop-IsFaithful left (attempt + 1) (min (delay * 2) 5000) (omega arith))

-- A failure that a further call may not meet.
abbrev pub may_pass : Result AiError AiAnalysis → Bool
may_pass (ok a) = false
may_pass (err e) = is_retryable e

spent_or_final :
    {P : Type 0} (r : Result AiError AiAnalysis)
    → ((e : AiError) → r ≡ err e → is_retryable e ≡ true → P)
    → (may_pass r ≡ false) ⊎ P
spent_or_final (ok a) h = inl refl
spent_or_final (err e) h = elim (Bool-cases (is_retryable e)) [
  | inl q ↦ inr (h e refl q)
  | inr q ↦ inl q
]

-- The provider is called once more than the loop slept, at most `max_retries + 1` times; the result
-- is the answer to the last call; a failure that may pass is returned only when every retry was
-- used; and no wait is longer than five seconds.
pub call_with_retries_lem :
    (provider : AiProvider) (raw_text : String) (max_retries : ℕ)
    → let a = call_with_retries provider raw_text max_retries in
      (a.calls ≡ length a.delays + 1)
      × (length a.delays ≤ max_retries)
      × (provider.analyze (length a.delays) raw_text ≡ a.result)
      × ((may_pass a.result ≡ false) ⊎ (length a.delays ≡ max_retries))
      × All (λ d. d ≤ 5000) a.delays
unfolding call_with_retries
call_with_retries_lem provider raw_text max_retries =
    let f = retry_loop-IsFaithful provider raw_text max_retries 0 500 (omega arith) in
    (
      omega (arith, f.made),
      f.bounded,
      rw zero-add at f.last,
      spent_or_final (call_with_retries provider raw_text max_retries).result f.used_up,
      f.waits,
    )
