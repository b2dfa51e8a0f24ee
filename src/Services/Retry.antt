-- ===== src/Services/Retry.antt =====
-- src/services/analysis.rs, `call_with_retries`: the provider is called until it answers, fails for
-- good, or the retries are used up.
pub mod Bounds
use legaltech_contract_autom.Common.{
  ℕ, zero, suc, ◌+◌, ◌*◌, min, String, Bool, true, false, ◌&&◌, List, [], ◌∷◌, Result, ok, err,
  if◌then◌else◌,
}
use legaltech_contract_autom.Ai.Provider.{AiAnalysis, AiError, AiProvider, is_retryable}

-- The answer, the delays slept through (in milliseconds), and the number of calls made.
pub record Answer : Type 0 where
  pub result : Result AiError AiAnalysis
  pub delays : List ℕ
  pub calls : ℕ

abbrev slept : ℕ → Answer → Answer
slept delay a = record a { delays = delay ∷ a.delays }

-- One call whose answer is known: `retry` is the rest of the loop.
unfoldable pub answered : ℕ → Bool → ℕ → Answer → Result AiError AiAnalysis → Answer
answered attempt more delay retry (ok a) = record {
  result = ok a;
  delays = [];
  calls = attempt + 1;
}
answered attempt more delay retry (err e) =
    if is_retryable e && more
    then slept delay retry
    else record { result = err e; delays = []; calls = attempt + 1 }

-- `left` is max_retries - attempt, so that `attempt < max_retries` is its being positive.
unfoldable pub retry_loop : AiProvider → String → (left attempt delay : ℕ) → Answer
unfolding answered
retry_loop provider raw_text zero attempt delay =
    let none_left : Answer = record {
      result = provider.analyze attempt raw_text;
      delays = [];
      calls = attempt + 1;
    } in
    answered attempt false delay none_left (provider.analyze attempt raw_text)
retry_loop provider raw_text (suc left) attempt delay =
    let retry = retry_loop provider raw_text left (attempt + 1) (min (delay * 2) 5000) in
    answered attempt true delay retry (provider.analyze attempt raw_text)

unfoldable pub call_with_retries : AiProvider → String → (max_retries : ℕ) → Answer
unfolding retry_loop
call_with_retries provider raw_text max_retries = retry_loop provider raw_text max_retries 0 500
