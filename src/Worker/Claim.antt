-- ===== src/Worker/Claim.antt =====
-- src/worker/claim.rs: a worker claims due reminders in one transaction.
-- `locked` says which rows other open transactions hold, which SKIP LOCKED passes over.
pub mod Selection
pub mod Exclusion
pub mod Claimed
use legaltech_contract_autom.Common.{
  ℕ, String, Bool, true, false, not, ◌&&◌, Option, none, some, if◌then◌else◌, ◌==◌, ltb, leb, List,
  [], ◌∷◌, map, filter, any, take, sort_by,
}
use legaltech_contract_autom.Reminders.Types.{processing}
use legaltech_contract_autom.Db.Models.{Reminder, Database}
use legaltech_contract_autom.Db.Session.{Db, DbError, statement, transaction, pure, ◌>>=◌, ◌>>◌}
use legaltech_contract_autom.Db.Reminders.{is_pending, update_where}

pub record ClaimedReminder : Type 0 where
  pub id : ℕ
  pub contract_id : ℕ
  pub obligation_id : Option ℕ
  pub reminder_date : ℕ
  pub reminder_type : String
  pub channel_type : String
  pub attempts : ℕ

-- next_attempt_at IS NULL OR next_attempt_at <= NOW()
abbrev pub retry_reached : ℕ → Option ℕ → Bool
retry_reached now none = true
retry_reached now (some at) = leb at now

unfoldable pub is_due : ℕ → Reminder → Bool
is_due now r = is_pending r.status && leb r.reminder_date now && retry_reached now r.next_attempt_at

-- ORDER BY reminder_date ASC, id ASC
unfoldable pub drains_before : Reminder → Reminder → Bool
drains_before r s =
    if ltb r.reminder_date s.reminder_date
    then true
    else r.reminder_date == s.reminder_date && leb r.id s.id

unfoldable pub candidates : ℕ → (ℕ → Bool) → List Reminder → List Reminder
unfolding is_due
candidates now locked = filter (λ r. is_due now r && not (locked r.id))

unfoldable pub select_due : ℕ → (ℕ → Bool) → ℕ → List Reminder → List Reminder
unfolding candidates drains_before
select_due now locked batch_size rows =
    take batch_size (sort_by drains_before (candidates now locked rows))

unfoldable pub to_claimed : Reminder → ClaimedReminder
to_claimed r = record {
  id = r.id;
  contract_id = r.contract_id;
  obligation_id = r.obligation_id;
  reminder_date = r.reminder_date;
  reminder_type = r.reminder_type;
  channel_type = r.channel_type;
  attempts = r.attempts;
}

-- WHERE id = ANY($1)
abbrev pub is_among : List ClaimedReminder → Reminder → Bool
is_among claimed r = any (λ c. c.id == r.id) claimed

unfoldable pub claim_row : ℕ → String → Reminder → Reminder
claim_row now worker_id r = record r {
  status = processing;
  claimed_at = some now;
  claimed_by = some worker_id;
  last_attempt_at = some now;
  updated_at = now;
}

unfoldable pub claim_rows : ℕ → String → List ClaimedReminder → List Reminder → List Reminder
unfolding claim_row
claim_rows now worker_id claimed = update_where (is_among claimed) (claim_row now worker_id)

unfoldable pub select_statement : (ℕ → Bool) → ℕ → Db DbError (List ClaimedReminder)
select_statement locked batch_size =
    statement λ now fresh db. (map to_claimed (select_due now locked batch_size db.reminders), db)

unfoldable pub update_statement : String → List ClaimedReminder → Db DbError (Unit {0})
update_statement worker_id claimed =
    statement
      λ now fresh db. (tt, record db { reminders = claim_rows now worker_id claimed db.reminders })

-- The rest of the transaction, once the due rows are known.
unfoldable pub claim_selected : String → List ClaimedReminder → Db DbError (List ClaimedReminder)
unfolding update_statement
claim_selected worker_id [] = pure []
claim_selected worker_id (c ∷ cs) = do update_statement worker_id (c ∷ cs); pure (c ∷ cs)

unfoldable pub claim_due : (ℕ → Bool) → String → ℕ → Db DbError (List ClaimedReminder)
unfolding select_statement claim_selected
claim_due locked worker_id batch_size =
    transaction (λ e. e)
      do claimed ← select_statement locked batch_size; claim_selected worker_id claimed
