-- ===== src/Examples/Data.antt =====
-- A small database: one analyzed contract, a due reminder and a claimed one.
use legaltech_contract_autom.Common.{ℕ, ◌+◌, String, false, [], ◌∷◌, Option, none, some}
use legaltech_contract_autom.Reminders.Types.{ReminderStatus, pending, processing, system, telegram}
use legaltech_contract_autom.Db.Models.{Reminder, Contract, Database, completed}
use legaltech_contract_autom.Db.Session.{World, Turn}
use legaltech_contract_autom.Notifications.Channel.{Notification}

abbrev pub turn : ℕ → Turn
turn k = record { now = 5_000_000_000; fresh = 100 + k; refused = false; others = λ db. db }

-- A connection on its own, on which nothing fails.
abbrev pub quiet : Database → World
quiet db = record { db = db; turns = turn; tick = 0; tx = none }

abbrev pub reminder : (id : ℕ) → ReminderStatus → (claimed : Option ℕ) → Option String → Reminder
reminder id status claimed_at claimed_by = record {
  id = id;
  contract_id = 1;
  obligation_id = none;
  reminder_date = 1000;
  reminder_type = "on_deadline";
  channel_type = "telegram";
  status = status;
  sent_at = none;
  attempts = 0;
  last_error = none;
  reminder_source = system;
  source_content_version = some 1;
  created_at = 500;
  updated_at = 500;
  claimed_at = claimed_at;
  claimed_by = claimed_by;
  next_attempt_at = none;
  last_attempt_at = none;
}

abbrev pub due : Reminder
due = reminder 7 pending none none

abbrev pub held : Reminder
held = reminder 8 processing (some 600) (some "w1")

abbrev pub lease : Contract
lease = record {
  id = 1;
  user_id = 2;
  title = "Lease";
  raw_text = "The tenant pays rent.";
  start_date = none;
  end_date = some 20;
  risk_level = none;
  risk_score = none;
  risk_summary = none;
  content_version = 1;
  analysis_status = completed;
  analyzed_at = some 400;
  analyzed_content_version = some 1;
  analysis_provider = none;
  analysis_model = none;
  analysis_prompt_version = none;
  analysis_error = none;
  created_at = 300;
  updated_at = 400;
}

abbrev pub small : Database
small = record {
  reminders = due ∷ held ∷ [];
  contracts = lease ∷ [];
  obligations = [];
  risks = [];
  audit_logs = [];
  channels = [];
  users = [];
  sessions = [];
}

abbrev pub notice : Notification
notice = record {
  reminder_id = 7;
  contract_id = 1;
  obligation_id = none;
  title = "Lease";
  message = "Reminder: on the deadline";
  due_date = none;
  reminder_type = "on_deadline";
  channel_type = telegram;
}
