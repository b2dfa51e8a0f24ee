-- ===== src/Db/Dashboard.antt =====
-- src/db/dashboard.rs: the counts of a user's dashboard, in one statement.
-- An inner join with `contracts` counts a row once, since the id is the primary key. CURRENT_DATE is
-- the day of NOW() in UTC.
use text.Mathlib.Text.{◌==◌ as str_eq}
use legaltech_contract_autom.Common.{
  ℕ, ◌+◌, ◌/◌, String, Bool, true, false, not, ◌&&◌, ◌||◌, ◌==◌, ltb, leb, any, count, Option, none,
  some,
}
use legaltech_contract_autom.Reminders.Types.{ReminderStatus, pending, sent, failed}
use legaltech_contract_autom.Db.Models.{
  Contract, ContractObligation, Reminder, NotificationChannel, Database, AnalysisStatus,
}
use legaltech_contract_autom.Db.Session.{Db, DbError, statement}

pub record DashboardCounts : Type 0 where
  pub total_contracts : ℕ
  pub analyzed_contracts : ℕ
  pub pending_analysis_contracts : ℕ
  pub high_or_critical_contracts : ℕ
  pub overdue_obligations : ℕ
  pub pending_reminders : ℕ
  pub sent_reminders : ℕ
  pub failed_reminders : ℕ
  pub upcoming_reminders_30d : ℕ
  pub enabled_channels : ℕ

abbrev pub is_analyzed : AnalysisStatus → Bool
is_analyzed AnalysisStatus.completed = true
is_analyzed AnalysisStatus.not_analyzed = false
is_analyzed AnalysisStatus.pending = false
is_analyzed AnalysisStatus.failed = false

-- IN ('not_analyzed', 'pending')
abbrev pub awaits_analysis : AnalysisStatus → Bool
awaits_analysis AnalysisStatus.not_analyzed = true
awaits_analysis AnalysisStatus.pending = true
awaits_analysis AnalysisStatus.completed = false
awaits_analysis AnalysisStatus.failed = false

abbrev pub has_status : ReminderStatus → ReminderStatus → Bool
has_status pending pending = true
has_status sent sent = true
has_status failed failed = true
has_status _ _ = false

-- risk_level IN ('high', 'critical')
abbrev pub is_high : Option String → Bool
is_high none = false
is_high (some level) = str_eq level "high" || str_eq level "critical"

-- due_date IS NOT NULL AND due_date < CURRENT_DATE AND status <> 'completed'
abbrev pub is_overdue : (now : ℕ) → ContractObligation → Bool
is_overdue now o =
    elim o.due_date [ none ↦ false | some day ↦ ltb day (now / 86_400_000_000) ]
    && not (str_eq o.status "completed")

-- INNER JOIN contracts c ON c.id = contract_id WHERE c.user_id = $1
abbrev pub belongs : (user_id : ℕ) → Database → (contract_id : ℕ) → Bool
belongs user_id db contract_id =
    any (λ (c : Contract). c.id == contract_id && c.user_id == user_id) db.contracts

-- INTERVAL '30 days' is 2,592,000 seconds.
abbrev pub is_upcoming : (now : ℕ) → Reminder → Bool
is_upcoming now r = leb now r.reminder_date && leb r.reminder_date (now + 2_592_000_000_000)

unfoldable pub dashboard_counts : (user_id now : ℕ) → Database → DashboardCounts
dashboard_counts user_id now db = record {
  total_contracts = count (λ (c : Contract). c.user_id == user_id) db.contracts;
  analyzed_contracts =
      count (λ (c : Contract). c.user_id == user_id && is_analyzed c.analysis_status) db.contracts;
  pending_analysis_contracts =
      count (λ (c : Contract). c.user_id == user_id && awaits_analysis c.analysis_status)
        db.contracts;
  high_or_critical_contracts =
      count (λ (c : Contract). c.user_id == user_id && is_high c.risk_level) db.contracts;
  overdue_obligations =
      count (λ (o : ContractObligation). belongs user_id db o.contract_id && is_overdue now o)
        db.obligations;
  pending_reminders =
      count (λ (r : Reminder). belongs user_id db r.contract_id && has_status pending r.status)
        db.reminders;
  sent_reminders =
      count (λ (r : Reminder). belongs user_id db r.contract_id && has_status sent r.status)
        db.reminders;
  failed_reminders =
      count (λ (r : Reminder). belongs user_id db r.contract_id && has_status failed r.status)
        db.reminders;
  upcoming_reminders_30d =
      count
        (λ (r : Reminder).
          belongs user_id db r.contract_id && (has_status pending r.status && is_upcoming now r))
        db.reminders;
  enabled_channels =
      count (λ (c : NotificationChannel). c.user_id == user_id && c.enabled) db.channels;
}

unfoldable pub load_dashboard_counts : (user_id : ℕ) → Db DbError DashboardCounts
unfolding dashboard_counts
load_dashboard_counts user_id = statement λ now fresh db. (dashboard_counts user_id now db, db)
