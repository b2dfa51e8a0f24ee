-- ===== src/Examples/Reminders.antt =====
-- The theorems on reminders at concrete inputs.
use legaltech_contract_autom.Common.{
  ◌+◌, ◌≡◌, refl, ◌↔◌, none, some, List, [], ◌∷◌, ◌++◌, map, filter, All, length, ok, Result,
}
use legaltech_contract_autom.Errors.{AppError, database}
use legaltech_contract_autom.Reminders.Types.{
  on_deadline, discord, pending, parse_type, as_str_type, parse_channel, as_str_channel,
  parse_status, as_str_status,
}
use legaltech_contract_autom.Reminders.RoundTrip.{parse_iff}
use legaltech_contract_autom.Reminders.Dates.{standard_offsets, system_reminders_for}
use legaltech_contract_autom.Reminders.Dates.Schedule.{
  reminder_at, is_ahead, system_reminders_for-eq,
}
use legaltech_contract_autom.Db.Models.{Reminder}
use legaltech_contract_autom.Db.Session.{World, seen, transaction, statement}
use legaltech_contract_autom.Db.Reminders.{
  delete_pending_system_rows, delete_pending_system_reminders, insert_system_reminder,
  insert_system_row, conflicts, is_pending_system, new_reminder,
}
use legaltech_contract_autom.Db.Details.{insert_audit}
use legaltech_contract_autom.Reminders.Service.{
  Target, GenerationResult, insert_targets, count_custom, replace_system_reminders,
}
use legaltech_contract_autom.Reminders.Service.Replacement.{
  IsGenerated, replace_system_reminders_lem,
}
use legaltech_contract_autom.Examples.Data.{quiet, small}

parse_iff_example :
    ((parse_type "pending" ≡ some on_deadline) ↔ (as_str_type on_deadline ≡ "pending"))
    × ((parse_channel "pending" ≡ some discord) ↔ (as_str_channel discord ≡ "pending"))
    × ((parse_status "pending" ≡ some pending) ↔ (as_str_status pending ≡ "pending"))
parse_iff_example = parse_iff "pending" on_deadline discord pending

system_reminders_for-eq_example :
    system_reminders_for 10 5 ≡ map (reminder_at 10) (filter (is_ahead 10 5) standard_offsets)
system_reminders_for-eq_example = system_reminders_for-eq 10 5

abbrev later_target : Target
later_target = record { obligation_id = none; reminder_date = 2000; reminder_type = "on_deadline" }

abbrev replaced : Result AppError GenerationResult × World
replaced =
    transaction (λ e. database) (replace_system_reminders 2 1 1 (later_target ∷ [])) (quiet small)

abbrev outcome : GenerationResult
outcome = record {
  contract_id = 1;
  created = 1;
  preserved_custom = 0;
  skipped_duplicates = 0;
  deleted_pending_system = 1;
  content_version = 1;
}

succeeds : replaced ≡ (ok outcome, replaced.1)
unfolding transaction statement replace_system_reminders insert_targets
    delete_pending_system_reminders insert_system_reminder insert_system_row conflicts count_custom
    insert_audit is_pending_system new_reminder
succeeds = refl

replace_system_reminders_lem_example :
    (rows : List Reminder) × (replaced.1.db.reminders
      ≡ delete_pending_system_rows 1 (seen (quiet small)).reminders ++ rows)
    × All (IsGenerated 1 1) rows
    × (1 ≡ length rows)
    × (1 + 0 ≡ length (later_target ∷ []))
replace_system_reminders_lem_example =
    replace_system_reminders_lem 2 1 1 (later_target ∷ []) outcome (quiet small) replaced.1 succeeds
