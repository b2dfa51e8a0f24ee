-- ===== src/Api/Reminders.antt =====
-- src/api/reminders.rs: the handlers of reminders.
pub mod Query
use Prim.Native.String.{◌++◌ as str_append}
use legaltech_contract_autom.Common.{ℕ, String, Option, none, some, List, map, Result, ok, err}
use legaltech_contract_autom.Errors.{AppError, validation}
use legaltech_contract_autom.Reminders.Types.{
  ChannelType, parse_channel, ReminderStatus, ReminderSource,
}
use legaltech_contract_autom.Db.Models.{Reminder}
use legaltech_contract_autom.Db.Session.{Db, pure, ◌>>=◌}
use legaltech_contract_autom.Reminders.Service.{
  GenerationResult, regenerate_system_reminders, create_custom, cancel, list,
}
use legaltech_contract_autom.Auth.Extractor.{AuthenticatedUser}
use legaltech_contract_autom.Auth.Handlers.{from_result}
use legaltech_contract_autom.Api.Requests.{
  JsonRejection, from_json, from_path, from_query, ListQueryRaw,
}
use legaltech_contract_autom.Api.Reminders.Query.{parse_reminder_query}

pub record CreateCustomReminderRequest : Type 0 where
  pub obligation_id : Option ℕ
  pub reminder_date : ℕ
  pub channel_type : String

-- The columns of a row that the API shows.
pub record ReminderResponse : Type 0 where
  pub id : ℕ
  pub contract_id : ℕ
  pub obligation_id : Option ℕ
  pub reminder_date : ℕ
  pub reminder_type : String
  pub channel_type : String
  pub status : ReminderStatus
  pub reminder_source : ReminderSource
  pub source_content_version : Option ℕ
  pub sent_at : Option ℕ
  pub attempts : ℕ
  pub last_error : Option String
  pub created_at : ℕ
  pub updated_at : ℕ

abbrev pub from_reminder : Reminder → ReminderResponse
from_reminder r = record {
  id = r.id;
  contract_id = r.contract_id;
  obligation_id = r.obligation_id;
  reminder_date = r.reminder_date;
  reminder_type = r.reminder_type;
  channel_type = r.channel_type;
  status = r.status;
  reminder_source = r.reminder_source;
  source_content_version = r.source_content_version;
  sent_at = r.sent_at;
  attempts = r.attempts;
  last_error = r.last_error;
  created_at = r.created_at;
  updated_at = r.updated_at;
}

pub record PaginatedReminders : Type 0 where
  pub items : List ReminderResponse
  pub page : ℕ
  pub limit : ℕ
  pub total : ℕ

unfoldable pub channel_of : String → Result AppError ChannelType
channel_of raw = elim (parse_channel raw) [
  | some channel ↦ ok channel
  | none ↦ err (
      validation (
        str_append "`channel_type` must be one of: telegram, discord, webhook (got `"
          (str_append raw "`)")))
]

-- `today` is the UTC date of the request.
unfoldable pub generate :
    (today : ℕ) → AuthenticatedUser → (path : Option ℕ) → Db AppError GenerationResult
generate today auth path = do
  contract_id ← from_result (from_path path)
  regenerate_system_reminders today auth.user_id contract_id

unfoldable pub create_reminder :
    AuthenticatedUser
    → (path : Option ℕ) → Result JsonRejection CreateCustomReminderRequest
    → Db AppError ReminderResponse
unfolding channel_of
create_reminder auth path payload = do
  contract_id ← from_result (from_path path)
  req ← from_result (from_json payload)
  channel ← from_result (channel_of req.channel_type)
  reminder ← create_custom auth.user_id contract_id req.obligation_id req.reminder_date channel
  pure (from_reminder reminder)

unfoldable pub list_reminders :
    AuthenticatedUser
    → (path : Option ℕ) → (query : Option ListQueryRaw) → Db AppError PaginatedReminders
list_reminders auth path query = do
  contract_id ← from_result (from_path path)
  raw ← from_result (from_query query)
  parsed ← from_result (parse_reminder_query raw)
  (items, total) ← list auth.user_id contract_id parsed.page parsed.limit
  pure (record {
    items = map from_reminder items;
    page = parsed.page;
    limit = parsed.limit;
    total = total;
  })

unfoldable pub cancel_reminder :
    AuthenticatedUser → (path : Option ℕ) → Db AppError ReminderResponse
cancel_reminder auth path = do
  reminder_id ← from_result (from_path path)
  reminder ← cancel auth.user_id reminder_id
  pure (from_reminder reminder)
