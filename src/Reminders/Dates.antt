-- ===== src/Reminders/Dates.antt =====
-- src/reminders/dates.rs. A date is the number of days since chrono's first date, so that
-- `checked_sub_days` fails below zero; an instant counts microseconds from the same midnight.
pub mod Schedule
use legaltech_contract_autom.Common.{
  ℕ, ◌-◌, ◌*◌, List, [], ◌∷◌, Option, none, some, leb, ltb, if◌then◌else◌,
}
use legaltech_contract_autom.Reminders.Types.{
  ReminderType, seven_days_before, three_days_before, one_day_before, on_deadline,
}

-- STANDARD_OFFSETS
pub record Offset : Type 0 where
  pub days : ℕ
  pub kind : ReminderType

abbrev pub standard_offsets : List Offset
standard_offsets =
    record { days = 7; kind = seven_days_before }
    ∷ record { days = 3; kind = three_days_before }
    ∷ record { days = 1; kind = one_day_before }
    ∷ record { days = 0; kind = on_deadline }
    ∷ []

pub record ComputedReminder : Type 0 where
  pub reminder_date : ℕ
  pub reminder_type : ReminderType

unfoldable pub date_to_utc_midnight : ℕ → ℕ
date_to_utc_midnight date = date * 86_400_000_000

-- NaiveDate::checked_sub_days
abbrev checked_sub_days : ℕ → ℕ → Option ℕ
checked_sub_days date days = if leb days date then some (date - days) else none

-- The closure of `filter_map`.
unfoldable pub computed : ℕ → ℕ → Offset → Option ComputedReminder
computed deadline today offset = elim (checked_sub_days deadline offset.days) [
  | none ↦ none
  | some date ↦
      if ltb date today
      then none
      else some (record { reminder_date = date; reminder_type = offset.kind })
]

unfoldable pub collect : ℕ → ℕ → List Offset → List ComputedReminder
unfolding computed
collect deadline today [] = []
collect deadline today (o ∷ os) = elim (computed deadline today o) [
  | none ↦ collect deadline today os
  | some c ↦ c ∷ collect deadline today os
]

unfoldable pub system_reminders_for : (deadline today : ℕ) → List ComputedReminder
unfolding collect
system_reminders_for deadline today = collect deadline today standard_offsets
