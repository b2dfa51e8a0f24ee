-- ===== src/Db/Models.antt =====
-- src/models/: the rows, with times in microseconds and dates in days, both counted from chrono's
-- first date, UUIDs as numbers, and a status column as the type that its CHECK constraint admits.
use legaltech_contract_autom.Common.{ℕ, ℤ, String, Bool, List, Option}
use legaltech_contract_autom.Reminders.Types.{ReminderStatus, ReminderSource}

-- A row of `reminders`; the last four columns are those of the worker migration.
pub record Reminder : Type 0 where
  pub id : ℕ
  pub contract_id : ℕ
  pub obligation_id : Option ℕ
  pub reminder_date : ℕ
  pub reminder_type : String
  pub channel_type : String
  pub status : ReminderStatus
  pub sent_at : Option ℕ
  pub attempts : ℕ
  pub last_error : Option String
  pub reminder_source : ReminderSource
  pub source_content_version : Option ℕ
  pub created_at : ℕ
  pub updated_at : ℕ
  pub claimed_at : Option ℕ
  pub claimed_by : Option String
  pub next_attempt_at : Option ℕ
  pub last_attempt_at : Option ℕ

-- contracts.analysis_status, as its CHECK constraint lists the values.
pub data AnalysisStatus : Type 0 where
  not_analyzed pending completed failed : AnalysisStatus

pub record Contract : Type 0 where
  pub id : ℕ
  pub user_id : ℕ
  pub title : String
  pub raw_text : String
  pub start_date : Option ℕ
  pub end_date : Option ℕ
  pub risk_level : Option String
  pub risk_score : Option ℤ
  pub risk_summary : Option String
  pub content_version : ℕ
  pub analysis_status : AnalysisStatus
  pub analyzed_at : Option ℕ
  pub analyzed_content_version : Option ℕ
  pub analysis_provider : Option String
  pub analysis_model : Option String
  pub analysis_prompt_version : Option ℕ
  pub analysis_error : Option String
  pub created_at : ℕ
  pub updated_at : ℕ

pub record ContractObligation : Type 0 where
  pub id : ℕ
  pub contract_id : ℕ
  pub title : String
  pub description : String
  pub due_date : Option ℕ
  pub responsible_party : Option String
  pub status : String
  pub risk_level : Option String
  pub created_at : ℕ
  pub updated_at : ℕ

pub record ContractRisk : Type 0 where
  pub id : ℕ
  pub contract_id : ℕ
  pub title : String
  pub description : String
  pub risk_level : String
  pub risk_score : ℤ
  pub evidence : String
  pub created_at : ℕ

-- A row of `audit_logs`, without its JSON metadata.
pub record AuditLog : Type 0 where
  pub id : ℕ
  pub user_id : Option ℕ
  pub action : String
  pub entity_type : String
  pub entity_id : Option ℕ
  pub created_at : ℕ

-- A row of `notification_channels`, with the bytes of its encrypted configuration.
pub record NotificationChannel : Type 0 where
  pub id : ℕ
  pub user_id : ℕ
  pub channel_type : String
  pub name : String
  pub enabled : Bool
  pub created_at : ℕ
  pub updated_at : ℕ
  pub last_tested_at : Option ℕ
  pub last_test_error : Option String
  pub encrypted_config : List ℕ

-- A row of `users`.
pub record User : Type 0 where
  pub id : ℕ
  pub email : String
  pub password_hash : String
  pub full_name : String
  pub created_at : ℕ
  pub updated_at : ℕ

-- A row of `sessions`.
pub record Session : Type 0 where
  pub id : ℕ
  pub user_id : ℕ
  pub token_hash : String
  pub expires_at : ℕ
  pub created_at : ℕ
  pub revoked_at : Option ℕ
  pub last_used_at : ℕ

pub record Database : Type 0 where
  pub reminders : List Reminder
  pub contracts : List Contract
  pub obligations : List ContractObligation
  pub risks : List ContractRisk
  pub audit_logs : List AuditLog
  pub channels : List NotificationChannel
  pub users : List User
  pub sessions : List Session
