-- ===== src/Reminders/Types.antt =====
-- src/reminders/types.rs: the vocabulary of reminders and its text forms.
use text.Mathlib.Text.{◌==◌ as str_eq}
use legaltech_contract_autom.Common.{String, Option, none, some, if◌then◌else◌, Bool, true, false}

pub data ReminderType : Type 0 where
  seven_days_before three_days_before one_day_before on_deadline custom : ReminderType

unfoldable pub as_str_type : ReminderType → String
as_str_type seven_days_before = "7_days_before"
as_str_type three_days_before = "3_days_before"
as_str_type one_day_before = "1_day_before"
as_str_type on_deadline = "on_deadline"
as_str_type custom = "custom"

unfoldable pub parse_type : String → Option ReminderType
parse_type s =
    if str_eq s "7_days_before"
    then some seven_days_before
    else if str_eq s "3_days_before"
    then some three_days_before
    else if str_eq s "1_day_before"
    then some one_day_before
    else if str_eq s "on_deadline"
    then some on_deadline
    else if str_eq s "custom"
    then some custom
    else none

pub data ChannelType : Type 0 where
  telegram discord webhook : ChannelType

unfoldable pub as_str_channel : ChannelType → String
as_str_channel telegram = "telegram"
as_str_channel discord = "discord"
as_str_channel webhook = "webhook"

unfoldable pub parse_channel : String → Option ChannelType
parse_channel s =
    if str_eq s "telegram"
    then some telegram
    else if str_eq s "discord"
    then some discord
    else if str_eq s "webhook"
    then some webhook
    else none

-- `==` on channel types, derived in the source.
unfoldable pub channel_eq : ChannelType → ChannelType → Bool
channel_eq telegram telegram = true
channel_eq discord discord = true
channel_eq webhook webhook = true
channel_eq _ _ = false

pub data ReminderSource : Type 0 where
  system custom : ReminderSource

unfoldable pub as_str_source : ReminderSource → String
as_str_source system = "system"
as_str_source custom = "custom"

pub data ReminderStatus : Type 0 where
  pending processing sent failed cancelled : ReminderStatus

unfoldable pub as_str_status : ReminderStatus → String
as_str_status pending = "pending"
as_str_status processing = "processing"
as_str_status sent = "sent"
as_str_status failed = "failed"
as_str_status cancelled = "cancelled"

unfoldable pub parse_status : String → Option ReminderStatus
parse_status s =
    if str_eq s "pending"
    then some pending
    else if str_eq s "processing"
    then some processing
    else if str_eq s "sent"
    then some sent
    else if str_eq s "failed"
    then some failed
    else if str_eq s "cancelled"
    then some cancelled
    else none
