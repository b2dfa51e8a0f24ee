-- ===== src/Db/Reminders.antt =====
-- src/db/reminders.rs: one definition for each statement on the `reminders` table.
use text.Mathlib.Text.{◌==◌ as str_eq}
use legaltech_contract_autom.Common.{
  ℕ, String, Bool, true, false, not, ◌&&◌, Option, none, some, if◌then◌else◌, ◌==◌, ltb, leb, List,
  [], ◌∷◌, ◌++◌, filter, find, any, count, option_eq,
}
use legaltech_contract_autom.Reminders.Types.{
  ReminderStatus, ReminderSource, pending, processing, cancelled, system,
}
use legaltech_contract_autom.Db.Models.{Reminder, Contract, Database}
use legaltech_contract_autom.Db.Session.{Db, DbError, statement}

abbrev pub is_pending : ReminderStatus → Bool
is_pending pending = true
is_pending _ = false

abbrev pub is_processing : ReminderStatus → Bool
is_processing processing = true
is_processing _ = false

abbrev pub is_system : ReminderSource → Bool
is_system system = true
is_system _ = false

-- UPDATE reminders SET change WHERE test
abbrev pub update_where : (Reminder → Bool) → (Reminder → Reminder) → List Reminder → List Reminder
update_where test change [] = []
update_where test change (r ∷ rs) = (if test r then change r else r) ∷ update_where test change rs

-- WHERE contract_id = $1 AND reminder_source = 'system' AND status = 'pending'
unfoldable pub is_pending_system : ℕ → Reminder → Bool
is_pending_system contract_id r =
    r.contract_id == contract_id && is_system r.reminder_source && is_pending r.status

unfoldable pub delete_pending_system_rows : ℕ → List Reminder → List Reminder
unfolding is_pending_system
delete_pending_system_rows contract_id = filter (λ r. not (is_pending_system contract_id r))

unfoldable pub delete_pending_system_reminders : ℕ → Db DbError ℕ
unfolding delete_pending_system_rows
delete_pending_system_reminders contract_id = statement λ now fresh db. (
  count (is_pending_system contract_id) db.reminders,
  record db { reminders = delete_pending_system_rows contract_id db.reminders },
)

-- The two unique indexes on system reminders (migration of the reminder engine): the rows of one
-- contract agree on obligation (both set and equal, or both NULL), date, type and channel.
unfoldable pub conflicts : Reminder → Reminder → Bool
conflicts r s =
    is_system r.reminder_source
    && is_system s.reminder_source
    && r.contract_id == s.contract_id
    && option_eq r.obligation_id s.obligation_id
    && r.reminder_date == s.reminder_date
    && str_eq r.reminder_type s.reminder_type
    && str_eq r.channel_type s.channel_type

-- The row that an INSERT makes, with the column defaults of the migrations.
unfoldable pub new_reminder :
    (now fresh contract_id : ℕ)
    → Option ℕ
    → (reminder_date : ℕ) (reminder_type channel_type : String) → ReminderSource
    → Option ℕ
    → Reminder
new_reminder now fresh contract_id obligation_id date kind channel source version = record {
  id = fresh;
  contract_id = contract_id;
  obligation_id = obligation_id;
  reminder_date = date;
  reminder_type = kind;
  channel_type = channel;
  status = pending;
  sent_at = none;
  attempts = 0;
  last_error = none;
  reminder_source = source;
  source_content_version = version;
  created_at = now;
  updated_at = now;
  claimed_at = none;
  claimed_by = none;
  next_attempt_at = none;
  last_attempt_at = none;
}

-- ON CONFLICT DO NOTHING: `none` when a row with the same key is there.
unfoldable pub insert_system_row : Reminder → List Reminder → Option Reminder × List Reminder
insert_system_row r rows = if any (conflicts r) rows then (none, rows) else (some r, rows ++ r ∷ [])

unfoldable pub insert_system_reminder :
    (contract_id : ℕ)
    → Option ℕ
    → (reminder_date : ℕ) (reminder_type channel_type : String) → (source_content_version : ℕ)
    → Db DbError (Option Reminder)
insert_system_reminder contract_id obligation_id date kind channel version =
    statement λ now fresh db.
      let r =
        new_reminder now fresh contract_id obligation_id date kind channel system (some version) in
      let (inserted, rows) = insert_system_row r db.reminders in
      (inserted, record db { reminders = rows })

unfoldable pub insert_custom_reminder :
    (contract_id : ℕ) → Option ℕ → (reminder_date : ℕ) (channel_type : String) → Db DbError Reminder
insert_custom_reminder contract_id obligation_id date channel = statement λ now fresh db.
    let r =
      new_reminder now fresh contract_id obligation_id date "custom" channel ReminderSource.custom
        none in
    (r, record db { reminders = db.reminders ++ r ∷ [] })

-- SELECT EXISTS (SELECT 1 FROM contracts WHERE id = $1 AND user_id = $2)
unfoldable pub owns : ℕ → ℕ → List Contract → Bool
owns contract_id user_id = any (λ c. c.id == contract_id && c.user_id == user_id)

unfoldable pub contract_owned_by : ℕ → ℕ → Db DbError Bool
contract_owned_by contract_id user_id =
    statement λ now fresh db. (owns contract_id user_id db.contracts, db)

-- The INNER JOIN with the contracts of the user.
unfoldable pub find_row_for_user : ℕ → ℕ → Database → Option Reminder
unfolding owns
find_row_for_user reminder_id user_id db =
    find (λ r. r.id == reminder_id && owns r.contract_id user_id db.contracts) db.reminders

unfoldable pub find_reminder_for_user : ℕ → ℕ → Db DbError (Option Reminder)
unfolding find_row_for_user
find_reminder_for_user reminder_id user_id =
    statement λ now fresh db. (find_row_for_user reminder_id user_id db, db)

-- WHERE id = $1 AND status = 'pending' AND contract_id IN (SELECT id ... WHERE user_id = $2)
unfoldable pub is_cancellable : ℕ → ℕ → List Contract → Reminder → Bool
unfolding owns
is_cancellable reminder_id user_id contracts r =
    r.id == reminder_id && is_pending r.status && owns r.contract_id user_id contracts

unfoldable pub cancel_row : ℕ → Reminder → Reminder
cancel_row now r = record r { status = cancelled; updated_at = now }

-- UPDATE ... RETURNING: the first row that was changed, as it stands afterwards.
unfoldable pub cancel_reminder_for_user : ℕ → ℕ → Db DbError (Option Reminder)
unfolding is_cancellable cancel_row
cancel_reminder_for_user reminder_id user_id = statement λ now fresh db.
    let test = is_cancellable reminder_id user_id db.contracts in
    (
      elim (find test db.reminders) [ none ↦ none | some r ↦ some (cancel_row now r) ],
      record db { reminders = update_where test (cancel_row now) db.reminders },
    )

-- ORDER BY reminder_date ASC, created_at ASC
unfoldable pub listed_before : Reminder → Reminder → Bool
listed_before r s =
    if ltb r.reminder_date s.reminder_date
    then true
    else r.reminder_date == s.reminder_date && leb r.created_at s.created_at

unfoldable pub count_reminders_for_contract : ℕ → Db DbError ℕ
count_reminders_for_contract contract_id =
    statement λ now fresh db. (count (λ r. r.contract_id == contract_id) db.reminders, db)
