-- ===== src/Reminders/Service.antt =====
-- src/reminders/service.rs: generation, custom reminders, cancellation, listing.
-- `today` is the UTC date that `regenerate_system_reminders` reads from the clock.
pub mod Replacement
use text.Mathlib.Text.{◌==◌ as str_eq}
use Prim.Native.String.{◌++◌ as str_append}
use legaltech_contract_autom.Common.{
  ℕ, suc, ◌+◌, ◌-◌, ◌*◌, String, Bool, true, false, not, ◌&&◌, Option, none, some, if◌then◌else◌,
  ◌==◌, List, [], ◌∷◌, ◌++◌, map, filter, count, drop, take, sort_by, option_eq, Result, ok, err,
}
use legaltech_contract_autom.Errors.{AppError, not_found, conflict, validation, database}
use legaltech_contract_autom.Reminders.Types.{
  ChannelType, telegram, as_str_channel, as_str_type, as_str_status, ReminderSource,
}
use legaltech_contract_autom.Reminders.Dates.{
  ComputedReminder, date_to_utc_midnight, system_reminders_for,
}
use legaltech_contract_autom.Db.Models.{Reminder, Contract, ContractObligation, Database}
use legaltech_contract_autom.Db.Session.{
  Db, DbError, statement, transaction, pure, throw, map_err, lifted, after, ◌>>=◌, ◌>>◌,
}
use legaltech_contract_autom.Db.Reminders.{
  is_pending, is_system, delete_pending_system_reminders, insert_system_reminder,
  insert_custom_reminder, contract_owned_by, find_reminder_for_user, cancel_reminder_for_user,
  listed_before, count_reminders_for_contract,
}
use legaltech_contract_autom.Db.Contracts.{find_contract_for_user, is_completed}
use legaltech_contract_autom.Db.Details.{
  list_obligations_for_contract, obligation_exists, insert_audit,
}

-- map_err(AppError::Database)
abbrev pub sql : {A : Type 0} → Db DbError A → Db AppError A
sql m = map_err (λ e. database) m

-- ok_or_else
abbrev pub ok_or : {A : Type 0} → AppError → Option A → Db AppError A
ok_or e none = throw e
ok_or e (some a) = pure a

-- An early `return Err(e)` when the test fails.
abbrev pub require : Bool → AppError → Db AppError (Unit {0})
require true e = pure tt
require false e = throw e

pub record GenerationResult : Type 0 where
  pub contract_id : ℕ
  pub created : ℕ
  pub preserved_custom : ℕ
  pub skipped_duplicates : ℕ
  pub deleted_pending_system : ℕ
  pub content_version : ℕ

pub record Target : Type 0 where
  pub obligation_id : Option ℕ
  pub reminder_date : ℕ
  pub reminder_type : String

target : Option ℕ → ComputedReminder → Target
target obligation_id c = record {
  obligation_id = obligation_id;
  reminder_date = date_to_utc_midnight c.reminder_date;
  reminder_type = as_str_type c.reminder_type;
}

-- The reminders of one date, if it is known.
targets_for : ℕ → Option ℕ → Option ℕ → List Target
unfolding target
targets_for today obligation_id none = []
targets_for today obligation_id (some date) =
    map (target obligation_id) (system_reminders_for date today)

obligation_targets : ℕ → List ContractObligation → List Target
unfolding targets_for
obligation_targets today [] = []
obligation_targets today (o ∷ os) =
    targets_for today (some o.id) o.due_date ++ obligation_targets today os

unfoldable pub targets : ℕ → Contract → List ContractObligation → List Target
unfolding obligation_targets
targets today c obligations =
    targets_for today none c.end_date ++ obligation_targets today obligations

-- The loop of inserts, with its counters of created and skipped rows.
unfoldable pub insert_targets :
    (contract_id version : ℕ) → List Target → (created skipped : ℕ) → Db AppError (ℕ × ℕ)
insert_targets contract_id version [] created skipped = pure (created, skipped)
insert_targets contract_id version (t ∷ ts) created skipped = do
  inserted ← sql (
      insert_system_reminder contract_id t.obligation_id t.reminder_date t.reminder_type
        (as_str_channel telegram) version)
  elim inserted [
    | some r ↦ insert_targets contract_id version ts (suc created) skipped
    | none ↦ insert_targets contract_id version ts created (suc skipped)
  ]

unfoldable pub count_custom : ℕ → Db DbError ℕ
count_custom contract_id = statement λ now fresh db. (
  count (λ r. r.contract_id == contract_id && not (is_system r.reminder_source)) db.reminders,
  db,
)

-- The body of the transaction.
unfoldable pub replace_system_reminders :
    (user_id contract_id version : ℕ) → List Target → Db AppError GenerationResult
replace_system_reminders user_id contract_id version ts = do
  deleted ← sql (delete_pending_system_reminders contract_id)
  counts ← insert_targets contract_id version ts 0 0
  custom ← sql (count_custom contract_id)
  sql (insert_audit (some user_id) "contract_reminders_regenerated" "contract" (some contract_id))
  pure (record {
    contract_id = contract_id;
    created = counts.0;
    preserved_custom = custom;
    skipped_duplicates = counts.1;
    deleted_pending_system = deleted;
    content_version = version;
  })

unfoldable pub regenerate_system_reminders :
    (today user_id contract_id : ℕ) → Db AppError GenerationResult
regenerate_system_reminders today user_id contract_id = do
  found ← sql (find_contract_for_user contract_id user_id)
  c ← ok_or (not_found "contract") found
  require (is_completed c.analysis_status)
      (conflict "contract analysis must be completed before reminders can be generated")
  require (option_eq c.analyzed_content_version (some c.content_version))
      (conflict "contract analysis is stale; re-run analysis before generating reminders")
  obligations ← sql (list_obligations_for_contract contract_id)
  transaction (λ e. database)
      (replace_system_reminders user_id contract_id c.content_version (targets today c obligations))

-- `if let Some(ob_id) = obligation_id { ... }`
unfoldable pub check_obligation : ℕ → Option ℕ → Db AppError (Unit {0})
check_obligation contract_id none = pure tt
check_obligation contract_id (some obligation_id) = do
  exists ← sql (obligation_exists obligation_id contract_id)
  require exists (validation "obligation does not belong to the specified contract")

unfoldable pub create_custom :
    (user_id contract_id : ℕ) → Option ℕ → (reminder_date : ℕ) → ChannelType → Db AppError Reminder
create_custom user_id contract_id obligation_id reminder_date channel_type = do
  owned ← sql (contract_owned_by contract_id user_id)
  require owned (not_found "contract")
  check_obligation contract_id obligation_id
  transaction (λ e. database)
      do
        r ← sql (
            insert_custom_reminder contract_id obligation_id reminder_date
              (as_str_channel channel_type))
        sql (insert_audit (some user_id) "reminder_created" "reminder" (some r.id))
        pure r

unfoldable pub cancel : (user_id reminder_id : ℕ) → Db AppError Reminder
cancel user_id reminder_id = do
  found ← sql (find_reminder_for_user reminder_id user_id)
  existing ← ok_or (not_found "reminder") found
  require (is_pending existing.status) (
      conflict (
        str_append (str_append "reminder is `" (as_str_status existing.status))
          "` and cannot be cancelled"))
  transaction (λ e. database)
      do
        updated ← sql (cancel_reminder_for_user reminder_id user_id)
        cancelled ← ok_or (conflict "reminder state changed; retry") updated
        sql (insert_audit (some user_id) "reminder_cancelled" "reminder" (some cancelled.id))
        pure cancelled

-- ORDER BY reminder_date ASC, created_at ASC LIMIT $2 OFFSET $3
unfoldable pub list_reminders_for_contract : ℕ → ℕ → ℕ → Db DbError (List Reminder)
list_reminders_for_contract contract_id limit offset = statement λ now fresh db. (
  take limit (
      drop offset
        (sort_by listed_before (filter (λ r. r.contract_id == contract_id) db.reminders))),
  db,
)

-- The page is counted from 1; `saturating_sub` is the subtraction that stops at 0.
unfoldable pub list : (user_id contract_id page limit : ℕ) → Db AppError (List Reminder × ℕ)
unfolding list_reminders_for_contract
list user_id contract_id page limit = do
  owned ← sql (contract_owned_by contract_id user_id)
  require owned (not_found "contract")
  items ← sql (list_reminders_for_contract contract_id limit ((page - 1) * limit))
  total ← sql (count_reminders_for_contract contract_id)
  pure (items, total)
