-- ===== src/Notifications/Channel.antt =====
-- src/notifications/channel.rs: the payload of a notification and the failures of a delivery.
-- Dates and UUIDs are written out by `show_date` and `show_uuid`, chrono's and uuid's Display.
use Prim.Native.String.{◌++◌ as str_append}
use legaltech_contract_autom.Common.{ℕ, String, Bool, true, false, Option, none, some}
use legaltech_contract_autom.Reminders.Types.{ChannelType}

pub record Notification : Type 0 where
  pub reminder_id : ℕ
  pub contract_id : ℕ
  pub obligation_id : Option ℕ
  pub title : String
  pub message : String
  pub due_date : Option ℕ
  pub reminder_type : String
  pub channel_type : ChannelType

module _ (show_date show_uuid : ℕ → String) where
  unfoldable pub render_text : Notification → String
  render_text n =
      let named = str_append (str_append "Reminder: " n.title) (str_append "\n" n.message) in
      let dated : String = elim n.due_date [
        | none ↦ named
        | some date ↦ str_append named (str_append "\nDue: " (show_date date))
      ] in
      let placed = str_append dated (str_append "\nContract: " (show_uuid n.contract_id)) in
      elim n.obligation_id [
        | none ↦ placed
        | some obligation ↦ str_append placed (str_append "\nObligation: " (show_uuid obligation))
      ]

pub data DeliveryError : Type 0 where
  not_configured unsafe_destination invalid_url timeout : DeliveryError
  rate_limited : (retry_after_seconds : Option ℕ) → DeliveryError
  transient : DeliveryError
  permanent : (status : ℕ) → DeliveryError
  unknown_channel other : DeliveryError

unfoldable pub is_retryable : DeliveryError → Bool
is_retryable timeout = true
is_retryable (rate_limited hint) = true
is_retryable transient = true
is_retryable _ = false

unfoldable pub safe_category : DeliveryError → String
safe_category not_configured = "channel_not_configured"
safe_category unsafe_destination = "ssrf_blocked"
safe_category invalid_url = "invalid_url"
safe_category timeout = "timeout"
safe_category (rate_limited hint) = "rate_limited"
safe_category transient = "transient"
safe_category (permanent status) = "permanent_http_error"
safe_category unknown_channel = "unknown_channel"
safe_category other = "other"

unfoldable pub retry_after_seconds : DeliveryError → Option ℕ
retry_after_seconds (rate_limited hint) = hint
retry_after_seconds _ = none
