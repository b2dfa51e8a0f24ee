-- ===== src/Middleware/RateLimit.antt =====
-- src/middleware/rate_limit.rs: the sliding window per key.
-- An Instant is counted from the clock's earliest instant, so checked_sub fails below the window.
-- A HashMap is a list of its entries, each key once. One call is one step: the mutex is held
-- throughout. A panic while it is held poisons it.
pub mod Entries
pub mod Refinement
pub mod Window
use legaltech_contract_autom.Common.{
  ℕ, ◌-◌, Bool, true, false, List, [], ◌∷◌, ◌++◌, ltb, leb, if◌then◌else◌, filter, any, length,
}
use mathlib.Core.Logic.{ite}
use Entries.{entry, set}

pub record KeyedRateLimiter (K : Type 0) : Type 0 where
  pub inner : List (K × List ℕ)
  pub max_requests : ℕ
  pub window : ℕ
  pub poisoned : Bool

unfoldable pub new : {K : Type 0} → ℕ → ℕ → KeyedRateLimiter K
new max_requests window = record {
  inner = [];
  max_requests = max_requests;
  window = window;
  poisoned = false;
}

-- What a call gives: Ok, Err with the time to wait, or a panic.
pub data Answer : Type 0 where
  allowed : Answer
  limited : ℕ → Answer
  panicked : Answer

-- now.checked_sub(window).unwrap_or(now)
abbrev pub cutoff : ℕ → ℕ → ℕ
cutoff window now = if leb window now then now - window else now

unfoldable pub retain_keys : {K : Type 0} → ℕ → List (K × List ℕ) → List (K × List ℕ)
retain_keys c map = filter (λ e. any (ltb c) e.1) map

-- The cleanup of a map that has grown.
unfoldable pub clean : {K : Type 0} → ℕ → List (K × List ℕ) → List (K × List ℕ)
unfolding retain_keys
clean c map = if ltb 10_000 (length map) then retain_keys c map else map

module _ {K : Type 0} (dec : Discrete K) where
  -- The limit on the entries that are left: `entries[0]` panics if there is none.
  unfoldable pub reject :
      ℕ → K → KeyedRateLimiter K → List (K × List ℕ) → List ℕ → Answer × KeyedRateLimiter K
  reject now key s map [] = (panicked, record s { inner = set dec key [] map; poisoned = true })
  reject now key s map (oldest ∷ newer) =
      (limited (s.window - (now - oldest)), record s { inner = set dec key (oldest ∷ newer) map })

  -- The entries that are left in the window decide.
  unfoldable pub admit :
      ℕ → K → KeyedRateLimiter K → List (K × List ℕ) → List ℕ → Answer × KeyedRateLimiter K
  unfolding reject
  admit now key s map entries =
      if leb s.max_requests (length entries)
      then reject now key s map entries
      else (allowed, record s { inner = set dec key (entries ++ now ∷ []) map })

  unfoldable pub check : ℕ → K → KeyedRateLimiter K → Answer × KeyedRateLimiter K
  unfolding clean admit
  check now key s =
      let c = cutoff s.window now in
      let map = clean c s.inner in
      if s.poisoned then (panicked, s) else admit now key s map (filter (ltb c) (entry dec key map))
