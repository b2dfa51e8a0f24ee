-- ===== src/Notifications/Senders.antt =====
-- src/notifications/{telegram,discord,webhook}.rs: one delivery over HTTP, and how its answer is
-- classified. `http` is the HTTP client and the world behind it, `pins` says whether a client pinned
-- to the checked addresses can be built, `parse_url` is url::Url::parse.
pub mod Pinned
use text.Mathlib.Text.{◌==◌ as str_eq}
use Prim.Native.String.{◌++◌ as str_append}
use legaltech_contract_autom.Common.{
  ℕ, ◌-◌, ◌^◌, String, Bool, true, false, ◌&&◌, ◌||◌, Option, none, some, if◌then◌else◌, ◌==◌, leb,
  List, [], Result, ok, err, ◌>>=◌, ◌>>◌,
}
use legaltech_contract_autom.Common.Texts.{trim, parse_unsigned}
use legaltech_contract_autom.Notifications.Channel.{
  Notification, DeliveryError, not_configured, invalid_url, timeout, rate_limited, transient,
  permanent, other, render_text,
}
use legaltech_contract_autom.Notifications.Config.{
  ChannelConfig, telegram_config, discord_config, webhook_config,
}
use legaltech_contract_autom.Notifications.Ssrf.{Url, SocketAddr, validate_and_resolve}

-- reqwest::Error, as far as it is asked.
pub record ReqwestError : Type 0 where
  pub is_timeout : Bool
  pub is_connect : Bool
  pub is_request : Bool

-- The status and the text of the Retry-After header, if there is one.
pub record Response : Type 0 where
  pub status : ℕ
  pub retry_after : Option String

-- A POST with its idempotency key; a webhook's client is pinned to the given addresses.
pub data Request : Type 0 where
  telegram_request : (endpoint chat_id text : String) (key : ℕ) → Request
  discord_request : Url → (content : String) (key : ℕ) → Request
  webhook_request : Url → List SocketAddr → Notification → (key : ℕ) → Request

unfoldable pub classify_reqwest_error : ReqwestError → DeliveryError
classify_reqwest_error e =
    if e.is_timeout then timeout else if e.is_connect || e.is_request then transient else other

-- v.to_str().ok().and_then(|s| s.trim().parse::<u64>().ok())
retry_hint : Option String → Option ℕ
unfolding trim parse_unsigned
retry_hint none = none
retry_hint (some text) = parse_unsigned (2 ^ 64 - 1) (trim text)

unfoldable pub classify_response : Response → Result DeliveryError (Unit {0})
unfolding retry_hint
classify_response r =
    if leb 200 r.status && leb r.status 299
    then ok tt
    else if r.status == 429
    then err (rate_limited (retry_hint r.retry_after))
    else if leb 500 r.status && leb r.status 599
    then err transient
    else err (permanent r.status)

abbrev pub classify : Result ReqwestError Response → Result DeliveryError (Unit {0})
classify (err e) = err (classify_reqwest_error e)
classify (ok r) = classify_response r

-- ok_or
abbrev pub required : {A : Type 0} → DeliveryError → Option A → Result DeliveryError A
required e none = err e
required e (some a) = ok a

module _ (show_date show_uuid : ℕ → String) (parse_url : String → Option Url)
    (resolve : String → ℕ → Option (List SocketAddr)) (pins : String → List SocketAddr → Bool)
    (http : Request → Result ReqwestError Response) where
  unfoldable pub send_telegram :
      (bot_token chat_id : String) → Notification → Result DeliveryError (Unit {0})
  unfolding classify_response classify_reqwest_error
  send_telegram token chat_id n = classify (
      http (
        telegram_request
          (str_append (str_append "https://api.telegram.org/bot" token) "/sendMessage") chat_id
          (render_text show_date show_uuid n) n.reminder_id))

  unfoldable pub send_discord :
      (webhook_url : Option Url) → Notification → Result DeliveryError (Unit {0})
  unfolding classify_response classify_reqwest_error
  send_discord webhook_url n = do
    url ← required not_configured webhook_url
    classify (http (discord_request url (render_text show_date show_uuid n) n.reminder_id))

  -- build_pinned_client, whose failure is DeliveryError::Other
  unfoldable pub pinned : String → List SocketAddr → Result DeliveryError (Unit {0})
  pinned host addrs = if pins host addrs then ok tt else err other

  unfoldable pub send_webhook :
      (url : Option Url) → (allow_loopback : Bool) → Notification → Result DeliveryError (Unit {0})
  unfolding classify_response classify_reqwest_error
  send_webhook configured allow_loopback n = do
    url ← required not_configured configured
    addrs ← validate_and_resolve resolve url allow_loopback
    host ← required invalid_url url.host_str
    pinned host addrs
    classify (http (webhook_request url addrs n n.reminder_id))

  -- src/worker/poller.rs: the channel that a stored configuration stands for.
  unfoldable pub send_via_config :
      ChannelConfig → Notification → (allow_loopback : Bool) → Result DeliveryError (Unit {0})
  unfolding send_telegram send_discord send_webhook
  send_via_config (telegram_config c) n allow_loopback = send_telegram c.bot_token c.chat_id n
  send_via_config (discord_config c) n allow_loopback = send_discord (parse_url c.webhook_url) n
  send_via_config (webhook_config c) n allow_loopback =
      send_webhook (parse_url c.url) allow_loopback n
