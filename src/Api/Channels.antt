-- ===== src/Api/Channels.antt =====
-- src/api/channels.rs: the handlers of the notification channels, past their rate limits.
-- `parse_url`, `to_json`, `from_json` and the senders' parameters are those of src/notifications/.
pub mod Isolated
use Prim.Native.String.{len}
use legaltech_contract_autom.Common.{
  ℕ, String, Bool, true, false, not, Option, none, some, if◌then◌else◌, ltb, List, map, Result, ok,
  err,
}
use legaltech_contract_autom.Common.Texts.{trim, is_empty}
use legaltech_contract_autom.Errors.{AppError, validation, conflict, not_found, database, internal}
use legaltech_contract_autom.Reminders.Types.{ChannelType}
use legaltech_contract_autom.Reminders.Service.{ok_or, require}
use legaltech_contract_autom.Db.Models.{NotificationChannel}
use legaltech_contract_autom.Db.Session.{Db, pure, throw, ignore, map_err, ◌>>=◌, ◌>>◌}
use legaltech_contract_autom.Notifications.Channel.{Notification, DeliveryError, safe_category}
use legaltech_contract_autom.Notifications.Config.{
  ChannelConfig, telegram_config, discord_config, webhook_config, UrlParts, channel_type,
  validate_config,
}
use legaltech_contract_autom.Notifications.Senders.{
  Request, ReqwestError, Response, send_telegram, send_discord, send_webhook,
}
use legaltech_contract_autom.Notifications.Ssrf.{Url, SocketAddr}
use legaltech_contract_autom.Notifications.Secrets.{Cipher, SecretError}
use legaltech_contract_autom.Notifications.Store.{
  StoreError, store_database, store_duplicate, store_secret, store_config_json, insert_channel,
  find_channel_for_user, find_channel_with_config_for_user, list_channels_for_user,
  count_channels_for_user, update_channel, delete_channel, record_test_result,
}
use legaltech_contract_autom.Auth.Extractor.{AuthenticatedUser}
use legaltech_contract_autom.Auth.Handlers.{from_result}
use legaltech_contract_autom.Api.Requests.{
  JsonRejection, from_json, from_path, from_query, ListQueryRaw, parse_list_query, offset_of,
}

pub record CreateChannelRequest : Type 0 where
  pub name : String
  pub config : ChannelConfig

pub record UpdateChannelRequest : Type 0 where
  pub name : Option String
  pub enabled : Option Bool
  pub config : Option ChannelConfig

pub record ChannelResponse : Type 0 where
  pub id : ℕ
  pub channel_type : String
  pub name : String
  pub enabled : Bool
  pub created_at : ℕ
  pub updated_at : ℕ
  pub last_tested_at : Option ℕ
  pub last_test_error : Option String

abbrev pub from_channel : NotificationChannel → ChannelResponse
from_channel c = record {
  id = c.id;
  channel_type = c.channel_type;
  name = c.name;
  enabled = c.enabled;
  created_at = c.created_at;
  updated_at = c.updated_at;
  last_tested_at = c.last_tested_at;
  last_test_error = c.last_test_error;
}

pub record PaginatedChannels : Type 0 where
  pub items : List ChannelResponse
  pub page : ℕ
  pub limit : ℕ
  pub total : ℕ

pub record TestResultResponse : Type 0 where
  pub is_ok : Bool
  pub error : Option String

unfoldable pub map_store_error : StoreError → AppError
map_store_error store_database = database
map_store_error store_duplicate = database
map_store_error (store_secret e) = internal
map_store_error store_config_json = internal

-- The error of an insertion: a duplicate key is a conflict.
unfoldable pub map_insert_error : StoreError → AppError
unfolding map_store_error
map_insert_error store_duplicate = conflict "an enabled channel of this type already exists"
map_insert_error store_database = map_store_error store_database
map_insert_error (store_secret e) = map_store_error (store_secret e)
map_insert_error store_config_json = map_store_error store_config_json

abbrev pub in_store : {A : Type 0} → Db StoreError A → Db AppError A
in_store m = map_err map_store_error m

unfoldable pub validate_name : String → Result AppError String
unfolding trim
validate_name name =
    let trimmed = trim name in
    if is_empty trimmed
    then err (validation "name must not be empty")
    else if ltb 100 (len trimmed)
    then err (validation "name must be at most 100 bytes")
    else ok trimmed

-- map_err(AppError::Validation)
abbrev pub validated : Result String (Unit {0}) → Result AppError (Unit {0})
validated (ok _) = ok tt
validated (err problem) = err (validation problem)

abbrev pub name_of : Option String → Result AppError (Option String)
name_of none = ok none
name_of (some raw) = elim (validate_name raw) [ err e ↦ err e | ok name ↦ ok (some name) ]

-- The answer and the category that is stored.
abbrev pub test_error : Result DeliveryError (Unit {0}) → Option String
test_error (ok _) = none
test_error (err e) = some (safe_category e)

abbrev pub test_response : Result DeliveryError (Unit {0}) → TestResultResponse
test_response (ok _) = record { is_ok = true; error = none }
test_response (err e) = record { is_ok = false; error = some (safe_category e) }

-- A notification that carries no data of a user.
abbrev pub synthetic : (reminder_id contract_id : ℕ) → ChannelConfig → Notification
synthetic reminder_id contract_id config = record {
  reminder_id = reminder_id;
  contract_id = contract_id;
  obligation_id = none;
  title = "LexGuard test notification";
  message = "This is a test from your LexGuard notification channel. No action is required.";
  due_date = none;
  reminder_type = "custom";
  channel_type = channel_type config;
}

module _ (parse_url : String → Option UrlParts) (cipher : Cipher)
    (to_json : ChannelConfig → Option (List ℕ)) (from_bytes : List ℕ → Option ChannelConfig) where
  abbrev pub config_of : Option ChannelConfig → Result AppError (Unit {0})
  config_of none = ok tt
  config_of (some config) = validated (validate_config parse_url config)

  unfoldable pub create :
      (nonce : List ℕ)
      → AuthenticatedUser
      → Result JsonRejection CreateChannelRequest
      → Db AppError ChannelResponse
  unfolding validate_name insert_channel
  create nonce auth payload = do
    req ← from_result (from_json payload)
    name ← from_result (validate_name req.name)
    from_result (validated (validate_config parse_url req.config))
    channel ← map_err map_insert_error (
        insert_channel cipher to_json from_bytes nonce auth.user_id (channel_type req.config) name
          req.config)
    pure (from_channel channel)

  unfoldable pub list :
      AuthenticatedUser → (query : Option ListQueryRaw) → Db AppError PaginatedChannels
  list auth query = do
    raw ← from_result (from_query query)
    parsed ← from_result (parse_list_query raw)
    rows ←
        in_store
          (list_channels_for_user auth.user_id parsed.limit (offset_of parsed.page parsed.limit))
    total ← in_store (count_channels_for_user auth.user_id)
    pure (record {
      items = map from_channel rows;
      page = parsed.page;
      limit = parsed.limit;
      total = total;
    })

  unfoldable pub get_one : AuthenticatedUser → (path : Option ℕ) → Db AppError ChannelResponse
  get_one auth path = do
    id ← from_result (from_path path)
    found ← in_store (find_channel_for_user id auth.user_id)
    channel ← ok_or (not_found "channel") found
    pure (from_channel channel)

  unfoldable pub update :
      (nonce : List ℕ)
      → AuthenticatedUser
      → (path : Option ℕ) → Result JsonRejection UpdateChannelRequest
      → Db AppError ChannelResponse
  unfolding update_channel
  update nonce auth path payload = do
    id ← from_result (from_path path)
    req ← from_result (from_json payload)
    name ← from_result (name_of req.name)
    from_result (config_of req.config)
    changed ←
        in_store (
          update_channel cipher to_json from_bytes nonce id auth.user_id name req.enabled
            req.config)
    updated ← ok_or (not_found "channel") changed
    pure (from_channel updated)

  unfoldable pub delete_one : AuthenticatedUser → (path : Option ℕ) → Db AppError (Unit {0})
  delete_one auth path = do
    id ← from_result (from_path path)
    removed ← in_store (delete_channel id auth.user_id)
    require removed (not_found "channel")

  -- With the ids that the synthetic notification draws; `dispatch` is the delivery.
  unfoldable pub test_channel :
      (dispatch : ChannelConfig → Notification → Result DeliveryError (Unit {0}))
      → (reminder_id contract_id : ℕ) → AuthenticatedUser
      → (path : Option ℕ) → Db AppError TestResultResponse
  unfolding find_channel_with_config_for_user
  test_channel dispatch reminder_id contract_id auth path = do
    id ← from_result (from_path path)
    found ← in_store (find_channel_with_config_for_user cipher to_json from_bytes id auth.user_id)
    row ← ok_or (not_found "channel") found
    require row.0.enabled (conflict "channel is disabled; enable it before testing")
    let outcome = dispatch row.1 (synthetic reminder_id contract_id row.1)
    ignore (record_test_result id auth.user_id (test_error outcome))
    pure (test_response outcome)

module _ (show_date show_uuid : ℕ → String) (parse_url : String → Option Url)
    (resolve : String → ℕ → Option (List SocketAddr)) (pins : String → List SocketAddr → Bool)
    (http : Request → Result ReqwestError Response) where
  unfoldable pub dispatch_test :
      (allow_loopback : Bool) → ChannelConfig → Notification → Result DeliveryError (Unit {0})
  unfolding send_telegram send_discord send_webhook
  dispatch_test allow_loopback (telegram_config c) n =
      send_telegram show_date show_uuid parse_url resolve pins http c.bot_token c.chat_id n
  dispatch_test allow_loopback (discord_config c) n =
      send_discord show_date show_uuid parse_url resolve pins http (parse_url c.webhook_url) n
  dispatch_test allow_loopback (webhook_config c) n =
      send_webhook show_date show_uuid parse_url resolve pins http (parse_url c.url) allow_loopback
        n
