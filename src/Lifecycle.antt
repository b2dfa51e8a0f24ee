-- ===== src/Lifecycle.antt =====
-- What is true of every row of `reminders` and `contracts` between two statements of the backend
-- (src/db/, src/worker/, src/reminders/service.rs, src/services/), and its preservation.
pub mod Rows
pub mod Reminders
pub mod Contracts
pub mod Service
pub mod Analysis
pub mod Delivery
pub mod System
use legaltech_contract_autom.Common.{
  ℕ, ◌≤◌, Bool, true, false, ◌≡◌, Option, none, some, is_some, List, All, leb, not, ◌||◌, option_eq,
}
use legaltech_contract_autom.Reminders.Types.{ReminderStatus, sent, failed}
use legaltech_contract_autom.Db.Models.{Reminder, Contract, Database}
use legaltech_contract_autom.Db.Reminders.{is_processing}
use legaltech_contract_autom.Db.Contracts.{is_completed}

abbrev pub is_sent : ReminderStatus → Bool
is_sent sent = true
is_sent _ = false

abbrev pub is_failed : ReminderStatus → Bool
is_failed failed = true
is_failed _ = false

-- A claim is recorded exactly while the reminder is processed, a sent reminder has its time, and a
-- failed one says why.
pub record ReminderIsValid (r : Reminder) : Type 0 where
  pub claim_time : is_some r.claimed_at ≡ is_processing r.status
  pub claim_holder : is_some r.claimed_by ≡ is_processing r.status
  pub sent_time : (not (is_sent r.status) || is_some r.sent_at) ≡ true
  pub failure : (not (is_failed r.status) || is_some r.last_error) ≡ true

-- A version that was analyzed is not after the current one.
abbrev pub is_past : Option ℕ → ℕ → Bool
is_past none current = true
is_past (some version) current = leb version current

-- A completed analysis is one of the text as it stands.
pub record ContractIsValid (c : Contract) : Type 0 where
  pub positive : 1 ≤ c.content_version
  pub past : is_past c.analyzed_content_version c.content_version ≡ true
  pub current :
      (not (is_completed c.analysis_status)
        || option_eq c.analyzed_content_version (some c.content_version))
      ≡ true

pub record IsValid (db : Database) : Type 0 where
  pub reminders : All ReminderIsValid db.reminders
  pub contracts : All ContractIsValid db.contracts
