-- ===== src/Worker/Outcome.antt =====
-- src/worker/outcome.rs: what becomes of a reminder after a delivery attempt.
-- `duration_seconds` is chrono's Duration::seconds, `none` where that panics.
pub mod Backoff
pub mod Held
pub mod Ownership
pub mod Settled
use text.Mathlib.Text.{◌==◌ as str_eq}
use legaltech_contract_autom.Common.{
  ℕ, suc, ◌+◌, ◌-◌, ◌*◌, ◌/◌, ◌%◌, ◌^◌, min, ℤ, pos, negsuc, String, Bool, true, false, ◌&&◌,
  Option, none, some, if◌then◌else◌, ◌==◌, ltb, leb, List, find, any, Result, ok, err,
}
use legaltech_contract_autom.Reminders.Types.{sent, failed, pending}
use legaltech_contract_autom.Db.Models.{Reminder, Database}
use legaltech_contract_autom.Db.Session.{
  Db, DbError, statement, pure, throw, map_err, lifted, after, ◌>>=◌, ◌>>◌,
}
use legaltech_contract_autom.Db.Reminders.{is_processing, update_where}
use legaltech_contract_autom.Notifications.Channel.{
  DeliveryError, is_retryable, safe_category, retry_after_seconds,
}

-- claimed_by = $2; a NULL is not equal to anything.
abbrev pub is_claimed_by : String → Option String → Bool
is_claimed_by worker_id none = false
is_claimed_by worker_id (some holder) = str_eq holder worker_id

-- WHERE id = $1 AND status = 'processing' AND claimed_by = $2
unfoldable pub is_held : ℕ → String → Reminder → Bool
is_held reminder_id worker_id r =
    r.id == reminder_id && is_processing r.status && is_claimed_by worker_id r.claimed_by

unfoldable pub sent_row : ℕ → Reminder → Reminder
sent_row now r = record r {
  status = sent;
  sent_at = some now;
  last_error = none;
  attempts = r.attempts + 1;
  claimed_at = none;
  claimed_by = none;
  updated_at = now;
}

unfoldable pub mark_sent : ℕ → String → Db DbError Bool
unfolding is_held sent_row
mark_sent reminder_id worker_id = statement λ now fresh db. (
  any (is_held reminder_id worker_id) db.reminders,
  record db {
    reminders = update_where (is_held reminder_id worker_id) (sent_row now) db.reminders;
  },
)

abbrev i64_max : ℕ
i64_max = 2 ^ 63 - 1

-- `secs as i64` for a u64: two's complement.
unfoldable pub as_i64 : ℕ → ℤ
as_i64 secs =
    let word = secs % 2 ^ 64 in if ltb word (2 ^ 63) then pos word else negsuc (2 ^ 64 - word - 1)

unfoldable pub saturating_pow2 : ℕ → ℕ
saturating_pow2 n = min (2 ^ n) i64_max

unfoldable pub saturating_mul : ℕ → ℕ → ℕ
saturating_mul a b = min (a * b) i64_max

-- `subsec_micros` is Utc::now().timestamp_subsec_micros().
unfoldable pub jitter : ℕ → ℕ
jitter subsec_micros = subsec_micros % 30_000_000 / 1_000_000

unfoldable pub capped : ℕ → ℕ
unfolding saturating_mul saturating_pow2
capped attempt = min (saturating_mul 30 (saturating_pow2 (min attempt 10))) 300

-- NOW() + make_interval(secs => delay)
unfoldable pub later : ℕ → ℤ → ℕ
later now (pos secs) = now + secs * 1_000_000
later now (negsuc secs) = now - suc secs * 1_000_000

unfoldable pub retry_row : ℕ → String → ℤ → Reminder → Reminder
retry_row now category delay r = record r {
  status = pending;
  attempts = r.attempts + 1;
  last_error = some category;
  next_attempt_at = some (later now delay);
  claimed_at = none;
  claimed_by = none;
  updated_at = now;
}

unfoldable pub failed_row : ℕ → String → Reminder → Reminder
failed_row now category r = record r {
  status = failed;
  attempts = r.attempts + 1;
  last_error = some category;
  claimed_at = none;
  claimed_by = none;
  updated_at = now;
}

-- A step of the worker task ends early by an sqlx::Error or by a panic.
pub data Stop : Type 0 where
  sqlx : DbError → Stop
  panicked : Stop

-- The attempts of the row that this worker still holds.
unfoldable pub held_attempts : ℕ → String → List Reminder → Option ℕ
unfolding is_held
held_attempts reminder_id worker_id rows = elim (find (is_held reminder_id worker_id) rows) [
  | none ↦ none
  | some r ↦ some r.attempts
]

unfoldable pub select_held : ℕ → String → Db DbError (Option ℕ)
select_held reminder_id worker_id =
    statement λ now fresh db. (held_attempts reminder_id worker_id db.reminders, db)

-- UPDATE ... WHERE the row is still held, with the change that depends on NOW().
unfoldable pub update_held : ℕ → String → (ℕ → Reminder → Reminder) → Db DbError (Unit {0})
update_held reminder_id worker_id change = statement λ now fresh db. (
  tt,
  record db { reminders = update_where (is_held reminder_id worker_id) (change now) db.reminders },
)

unfoldable pub will_retry : DeliveryError → ℕ → ℕ → Bool
will_retry e current_attempts max_retries = is_retryable e && ltb (current_attempts + 1) max_retries

module _ (duration_seconds : ℤ → Option ℤ) where
  unfoldable pub compute_backoff : DeliveryError → ℕ → ℕ → Option ℤ
  compute_backoff e attempt subsec_micros = elim (retry_after_seconds e) [
    | some secs ↦ duration_seconds (as_i64 secs)
    | none ↦ duration_seconds (pos (capped attempt + jitter subsec_micros))
  ]

  -- `compute_backoff` inside a database step.
  unfoldable pub backoff : DeliveryError → ℕ → ℕ → Db Stop ℤ
  unfolding compute_backoff
  backoff e attempt subsec_micros = elim (compute_backoff e attempt subsec_micros) [
    | none ↦ throw panicked
    | some delay ↦ pure delay
  ]

  -- The two branches on `will_retry`.
  unfoldable pub reschedule : ℕ → String → DeliveryError → ℕ → ℕ → Bool → Db Stop (Unit {0})
  unfolding backoff
  reschedule reminder_id worker_id e attempts subsec_micros true = do
    delay ← backoff e attempts subsec_micros
    map_err sqlx (update_held reminder_id worker_id (λ now. retry_row now (safe_category e) delay))
  reschedule reminder_id worker_id e attempts subsec_micros false =
      map_err sqlx (update_held reminder_id worker_id (λ now. failed_row now (safe_category e)))

  -- What follows the SELECT; `none` means that the claim was lost.
  unfoldable pub settle : ℕ → String → DeliveryError → ℕ → ℕ → Option ℕ → Db Stop Bool
  unfolding reschedule
  settle reminder_id worker_id e max_retries subsec_micros none = pure false
  settle reminder_id worker_id e max_retries subsec_micros (some attempts) = do
    reschedule reminder_id worker_id e attempts subsec_micros (will_retry e attempts max_retries)
    pure (will_retry e attempts max_retries)

  -- `early` and `late` are the clock's microseconds at the two calls of `compute_backoff`.
  unfoldable pub schedule_retry_or_fail :
      (reminder_id : ℕ) (worker_id : String)
      → DeliveryError
      → (max_retries early late : ℕ) → Db Stop Bool
  unfolding settle backoff
  schedule_retry_or_fail reminder_id worker_id e max_retries early late = do
    _ ← backoff e 0 early
    held ← map_err sqlx (select_held reminder_id worker_id)
    settle reminder_id worker_id e max_retries late held
