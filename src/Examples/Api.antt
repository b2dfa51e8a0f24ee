-- ===== src/Examples/Api.antt =====
-- Channels, their secrets and the pages of lists at concrete inputs.
use legaltech_contract_autom.Common.{
  ℕ, ◌+◌, ◌≤◌, ◌≡◌, ◌&&◌, count, arith, refl, String, true, Option, none, some, List, [], ◌∷◌,
  Result, ok,
}
use legaltech_contract_autom.Common.Texts.{parse_unsigned}
use legaltech_contract_autom.Db.Models.{NotificationChannel}
use legaltech_contract_autom.Db.Session.{World, statement}
use legaltech_contract_autom.Notifications.Channel.{Notification, DeliveryError}
use legaltech_contract_autom.Notifications.Config.{ChannelConfig, telegram_config, UrlParts}
use legaltech_contract_autom.Notifications.Secrets.{
  Cipher, Opens, encrypt, decrypt, decrypt-encrypt,
}
use legaltech_contract_autom.Auth.Extractor.{AuthenticatedUser}
use legaltech_contract_autom.Api.Requests.{JsonRejection, parse_list_query, ListQueryRaw}
use legaltech_contract_autom.Api.Requests.Bounds.{
  InRange, parse_list_query-InRange, parse_reminder_query-InRange, parse_contract_query-InRange,
}
use legaltech_contract_autom.Api.Reminders.Query.{parse_reminder_query}
use legaltech_contract_autom.Api.Contracts.Query
use legaltech_contract_autom.Api.Contracts.Query.{parse_contract_query}
use legaltech_contract_autom.Services.Contracts.{SortField, asc}
use legaltech_contract_autom.Api.Channels.{
  CreateChannelRequest, UpdateChannelRequest, create, update, delete_one, test_channel,
}
use legaltech_contract_autom.Api.Channels.Isolated.{OthersKept}
use legaltech_contract_autom.Api.Channels.Isolated.Handlers.{handlers-KeepOthers}
use legaltech_contract_autom.Db.Dashboard.{dashboard_counts, belongs}
use legaltech_contract_autom.Worker.Outcome.{mark_sent, is_held}
use legaltech_contract_autom.Api.Dashboard.{DashboardSummary, summary, summary_of}
use legaltech_contract_autom.Api.Dashboard.Own.{summary-own}
use legaltech_contract_autom.Api.Dashboard.Effects.{mark_sent-summary}
use legaltech_contract_autom.Examples.Data.{small, quiet}

-- A cipher that puts one byte in front of the text.
abbrev tail_of : List ℕ → Option (List ℕ)
tail_of [] = none
tail_of (b ∷ bs) = some bs

abbrev cipher : Cipher
cipher = record { seal = λ nonce text. some (7 ∷ text); unseal = λ nonce bytes. tail_of bytes }

cipher-Opens : Opens cipher
cipher-Opens = record {
  opens = λ nonce text bytes e. let same : (7 ∷ text) ≡ bytes = cc in rw (← same) refl;
}

abbrev nonce : List ℕ
nonce = 1 ∷ 2 ∷ 3 ∷ 4 ∷ 5 ∷ 6 ∷ 7 ∷ 8 ∷ 9 ∷ 10 ∷ 11 ∷ 12 ∷ []

encrypts :
    encrypt cipher nonce (42 ∷ [])
    ≡ ok (1 ∷ 2 ∷ 3 ∷ 4 ∷ 5 ∷ 6 ∷ 7 ∷ 8 ∷ 9 ∷ 10 ∷ 11 ∷ 12 ∷ 7 ∷ 42 ∷ [])
unfolding encrypt
encrypts = refl

decrypt-encrypt_example :
    decrypt cipher (1 ∷ 2 ∷ 3 ∷ 4 ∷ 5 ∷ 6 ∷ 7 ∷ 8 ∷ 9 ∷ 10 ∷ 11 ∷ 12 ∷ 7 ∷ 42 ∷ []) ≡ ok (42 ∷ [])
decrypt-encrypt_example =
    decrypt-encrypt cipher nonce (42 ∷ [])
      (1 ∷ 2 ∷ 3 ∷ 4 ∷ 5 ∷ 6 ∷ 7 ∷ 8 ∷ 9 ∷ 10 ∷ 11 ∷ 12 ∷ 7 ∷ 42 ∷ []) cipher-Opens refl encrypts

abbrev parse_url : String → Option UrlParts
parse_url s = none

abbrev config : ChannelConfig
config = telegram_config (record { bot_token = "123:secret"; chat_id = "-100" })

abbrev to_json : ChannelConfig → Option (List ℕ)
to_json c = some (1 ∷ 2 ∷ [])

abbrev from_bytes : List ℕ → Option ChannelConfig
from_bytes bytes = some config

abbrev dispatch : ChannelConfig → Notification → Result DeliveryError (Unit {0})
dispatch c n = ok tt

abbrev owner : AuthenticatedUser
owner = record { user_id = 2; session_id = 9 }

abbrev channel : NotificationChannel
channel = record {
  id = 50;
  user_id = 2;
  channel_type = "telegram";
  name = "Chat";
  enabled = true;
  created_at = 100;
  updated_at = 100;
  last_tested_at = none;
  last_test_error = none;
  encrypted_config = nonce;
}

abbrev served : World
served = quiet (record small { channels = channel ∷ [] })

abbrev creation : Result JsonRejection CreateChannelRequest
creation = ok (record { name = "Second chat"; config = config })

abbrev change : Result JsonRejection UpdateChannelRequest
change = ok (record { name = some "Renamed"; enabled = none; config = none })

-- The channel of another user, which the path names.
abbrev foreign : NotificationChannel
foreign = record channel { id = 51; user_id = 3; name = "Theirs" }

abbrev shared : World
shared = quiet (record small { channels = channel ∷ foreign ∷ [] })

handlers-KeepOthers_example :
    OthersKept 2
      (foreign ∷ [])
      (create parse_url cipher to_json from_bytes nonce owner creation shared).1.db
    × OthersKept 2
        (foreign ∷ [])
        (update parse_url cipher to_json from_bytes nonce owner (some 51) change shared).1.db
    × OthersKept 2
        (foreign ∷ [])
        (delete_one parse_url cipher to_json from_bytes owner (some 51) shared).1.db
    × OthersKept 2
        (foreign ∷ [])
        (test_channel parse_url cipher to_json from_bytes dispatch 1 1 owner (some 51) shared).1.db
handlers-KeepOthers_example =
    handlers-KeepOthers owner (foreign ∷ []) parse_url cipher to_json from_bytes dispatch nonce
      (some 51) creation change 1 1 shared
      (record { holds = record { kept = refl }; rely = λ k db v. v })

abbrev list_query : ListQueryRaw
list_query = record { page = some "3"; limit = none }

reads_page : parse_list_query list_query ≡ ok (record { page = 3; limit = 20 })
unfolding parse_list_query parse_unsigned
reads_page = refl

parse_list_query-InRange_example : InRange 100 3 20
parse_list_query-InRange_example =
    parse_list_query-InRange list_query (record { page = 3; limit = 20 }) reads_page

abbrev reminder_query : ListQueryRaw
reminder_query = record { page = none; limit = some "150" }

reads_reminders : parse_reminder_query reminder_query ≡ ok (record { page = 1; limit = 150 })
unfolding parse_reminder_query parse_unsigned
reads_reminders = refl

reads_reminders_default :
    parse_reminder_query (record { page = none; limit = none })
    ≡ ok (record { page = 1; limit = 50 })
unfolding parse_reminder_query parse_unsigned
reads_reminders_default = refl

parse_reminder_query-InRange_example : InRange 200 1 150
parse_reminder_query-InRange_example =
    parse_reminder_query-InRange reminder_query (record { page = 1; limit = 150 }) reads_reminders

abbrev contract_query : Query.ListQueryRaw
contract_query = record { page = none; limit = some "50"; sort = some "title"; order = some "asc" }

abbrev contract_page : Query.ParsedListQuery
contract_page = record { page = 1; limit = 50; sort = SortField.title; direction = asc }

reads_contract_page : parse_contract_query contract_query ≡ ok contract_page
unfolding parse_contract_query parse_unsigned
reads_contract_page = refl

parse_contract_query-InRange_example : InRange 100 1 50
parse_contract_query-InRange_example =
    parse_contract_query-InRange contract_query contract_page reads_contract_page

summary-own_example : (summary owner served).0 ≡ (summary owner shared).0
summary-own_example =
    summary-own owner served shared
      (record { contracts = refl; obligations = refl; reminders = refl; channels = refl }) refl refl

marks : mark_sent 8 "w1" served ≡ (ok true, (mark_sent 8 "w1" served).1)
unfolding mark_sent statement
marks = refl

abbrev before : DashboardSummary
before = summary_of (dashboard_counts 2 5_000_000_000 served.db)

abbrev after : DashboardSummary
after = summary_of (dashboard_counts 2 6_000_000_000 (mark_sent 8 "w1" served).1.db)

mark_sent-summary_example :
    (after.reminders.sent
      ≡ before.reminders.sent
        + count (λ r. belongs 2 served.db r.contract_id && is_held 8 "w1" r) served.db.reminders)
    × (after.reminders.pending ≡ before.reminders.pending)
    × (after.reminders.failed ≡ before.reminders.failed)
    × (after.contracts ≡ before.contracts)
    × (after.channels ≡ before.channels)
    × (before.obligations.overdue ≤ after.obligations.overdue)
mark_sent-summary_example =
    mark_sent-summary 8 2 5_000_000_000 6_000_000_000 "w1" true served (mark_sent 8 "w1" served).1
      marks (omega arith)
