-- ===== src/Worker/Recovery.antt =====
-- src/worker/recovery.rs: rows that a crashed worker left in `processing` become due again.
pub mod Recovered
use legaltech_contract_autom.Common.{
  ℕ, ◌-◌, ◌*◌, Bool, true, false, ◌&&◌, Option, none, some, ltb, List, count,
}
use legaltech_contract_autom.Reminders.Types.{pending}
use legaltech_contract_autom.Db.Models.{Reminder}
use legaltech_contract_autom.Db.Session.{Db, DbError, statement}
use legaltech_contract_autom.Db.Reminders.{is_processing, update_where}

-- claimed_at IS NOT NULL AND claimed_at < NOW() - make_interval(secs => $1)
abbrev claim_expired : ℕ → ℕ → Option ℕ → Bool
claim_expired now timeout none = false
claim_expired now timeout (some at) = ltb at (now - timeout * 1_000_000)

unfoldable pub is_stale : ℕ → ℕ → Reminder → Bool
is_stale now timeout r = is_processing r.status && claim_expired now timeout r.claimed_at

unfoldable pub recovered_row : ℕ → Reminder → Reminder
recovered_row now r = record r {
  status = pending;
  claimed_at = none;
  claimed_by = none;
  updated_at = now;
}

-- The number of rows recovered.
unfoldable pub recover_stale_processing : (claim_timeout_seconds : ℕ) → Db DbError ℕ
unfolding is_stale recovered_row
recover_stale_processing timeout = statement λ now fresh db. (
  count (is_stale now timeout) db.reminders,
  record db { reminders = update_where (is_stale now timeout) (recovered_row now) db.reminders },
)
