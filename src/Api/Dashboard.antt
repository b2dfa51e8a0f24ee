-- ===== src/Api/Dashboard.antt =====
-- src/api/dashboard.rs: the summary of a user's dashboard.
pub mod Effects
pub mod Own
use legaltech_contract_autom.Common.{
  ℕ, ◌==◌, ◌+◌, ◌≤◌, ◌≡◌, refl, sym, Bool, true, false, ◌&&◌, count, List, [], ◌∷◌, ok, arith,
  Bool-cases, inl, inr,
}
use mathlib.Core.Path.{subst}
use legaltech_contract_autom.Errors.{AppError}
use legaltech_contract_autom.Db.Models.{Contract, Database, AnalysisStatus}
use legaltech_contract_autom.Db.Session.{Db, World, statement, pure, ◌>>=◌, seen, clock}
use legaltech_contract_autom.Db.Dashboard.{
  DashboardCounts, dashboard_counts, load_dashboard_counts, is_analyzed, awaits_analysis,
}
use legaltech_contract_autom.Reminders.Service.{sql}
use legaltech_contract_autom.Auth.Extractor.{AuthenticatedUser}

pub record ContractCounts : Type 0 where
  pub total : ℕ
  pub analyzed : ℕ
  pub pending_analysis : ℕ
  pub high_or_critical : ℕ

pub record ObligationCounts : Type 0 where
  pub overdue : ℕ

pub record ReminderCounts : Type 0 where
  pub pending : ℕ
  pub sent : ℕ
  pub failed : ℕ
  pub upcoming_30d : ℕ

pub record ChannelCounts : Type 0 where
  pub enabled : ℕ

pub record DashboardSummary : Type 0 where
  pub contracts : ContractCounts
  pub obligations : ObligationCounts
  pub reminders : ReminderCounts
  pub channels : ChannelCounts

unfoldable pub summary_of : DashboardCounts → DashboardSummary
summary_of counts = record {
  contracts = record {
    total = counts.total_contracts;
    analyzed = counts.analyzed_contracts;
    pending_analysis = counts.pending_analysis_contracts;
    high_or_critical = counts.high_or_critical_contracts;
  };
  obligations = record { overdue = counts.overdue_obligations };
  reminders = record {
    pending = counts.pending_reminders;
    sent = counts.sent_reminders;
    failed = counts.failed_reminders;
    upcoming_30d = counts.upcoming_reminders_30d;
  };
  channels = record { enabled = counts.enabled_channels };
}

unfoldable pub summary : AuthenticatedUser → Db AppError DashboardSummary
unfolding summary_of
summary auth = do counts ← sql (load_dashboard_counts auth.user_id); pure (summary_of counts)
