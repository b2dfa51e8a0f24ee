-- ===== src/Reminders/RoundTrip.antt =====
-- The text forms of src/reminders/types.rs and their parsers.
use text.Mathlib.TextEquality.{eq_iff}
use legaltech_contract_autom.Common.{String, ◌≡◌, refl, sym, ◌∙◌, ap, some, arith, ◌↔◌}
use legaltech_contract_autom.Reminders.Types.{
  ReminderType, seven_days_before, three_days_before, one_day_before, on_deadline, custom,
  as_str_type, parse_type, ChannelType, telegram, discord, webhook, as_str_channel, parse_channel,
  ReminderStatus, pending, processing, sent, failed, cancelled, as_str_status, parse_status,
}

parse-as_str_type : (t : ReminderType) → parse_type (as_str_type t) ≡ some t
unfolding parse_type as_str_type
parse-as_str_type seven_days_before = refl
parse-as_str_type three_days_before = refl
parse-as_str_type one_day_before = refl
parse-as_str_type on_deadline = refl
parse-as_str_type custom = refl

parse-as_str_channel : (t : ChannelType) → parse_channel (as_str_channel t) ≡ some t
unfolding parse_channel as_str_channel
parse-as_str_channel telegram = refl
parse-as_str_channel discord = refl
parse-as_str_channel webhook = refl

parse-as_str_status : (t : ReminderStatus) → parse_status (as_str_status t) ≡ some t
unfolding parse_status as_str_status
parse-as_str_status pending = refl
parse-as_str_status processing = refl
parse-as_str_status sent = refl
parse-as_str_status failed = refl
parse-as_str_status cancelled = refl

as_str-parse_type : (s : String) (t : ReminderType) → parse_type s ≡ some t → as_str_type t ≡ s
unfolding parse_type as_str_type
as_str-parse_type s t h = ground (
  arith,
  eq_iff s "7_days_before",
  eq_iff s "3_days_before",
  eq_iff s "1_day_before",
  eq_iff s "on_deadline",
  eq_iff s "custom",
)

as_str-parse_channel :
    (s : String) (t : ChannelType) → parse_channel s ≡ some t → as_str_channel t ≡ s
unfolding parse_channel as_str_channel
as_str-parse_channel s t h =
    ground (arith, eq_iff s "telegram", eq_iff s "discord", eq_iff s "webhook")

as_str-parse_status :
    (s : String) (t : ReminderStatus) → parse_status s ≡ some t → as_str_status t ≡ s
unfolding parse_status as_str_status
as_str-parse_status s t h = ground (
  arith,
  eq_iff s "pending",
  eq_iff s "processing",
  eq_iff s "sent",
  eq_iff s "failed",
  eq_iff s "cancelled",
)

-- A text parses to a reminder type, to a channel type or to a status exactly if it is the text form
-- of that value.
pub parse_iff :
    (s : String) (t : ReminderType) (c : ChannelType) (u : ReminderStatus)
    → ((parse_type s ≡ some t) ↔ (as_str_type t ≡ s))
      × ((parse_channel s ≡ some c) ↔ (as_str_channel c ≡ s))
      × ((parse_status s ≡ some u) ↔ (as_str_status u ≡ s))
parse_iff s t c u = (
  (as_str-parse_type s t, λ e. ap parse_type (sym e) ∙ parse-as_str_type t),
  (as_str-parse_channel s c, λ e. ap parse_channel (sym e) ∙ parse-as_str_channel c),
  (as_str-parse_status s u, λ e. ap parse_status (sym e) ∙ parse-as_str_status u),
)
