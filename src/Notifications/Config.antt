-- ===== src/Notifications/Config.antt =====
-- src/notifications/config.rs: the stored configuration of a channel. `parse_url` is url::Url::parse
-- with the path beside the parts that src/notifications/ssrf.rs reads.
use Prim.Native.Char.{code}
use Prim.Native.String.{len}
use text.Mathlib.Text.{◌==◌ as str_eq, starts_with}
use legaltech_contract_autom.Common.{
  ℕ, ◌-◌, ◌^◌, String, Bool, false, not, ◌&&◌, ◌||◌, Option, none, some, is_some, if◌then◌else◌,
  ◌==◌, ltb, leb, Result, ok, err, ◌>>◌,
}
use legaltech_contract_autom.Common.Texts.{
  trim, is_empty, all_chars, is_ascii_digit, parse_unsigned, ends_with, split_once,
}
use legaltech_contract_autom.Reminders.Types.{ChannelType, telegram, discord, webhook}
use legaltech_contract_autom.Ai.Validation.{check}

pub record TelegramConfig : Type 0 where
  pub bot_token : String
  pub chat_id : String

pub record DiscordConfig : Type 0 where
  pub webhook_url : String

pub data WebhookAuth : Type 0 where
  bearer : (token : String) → WebhookAuth
  hmac : (secret : String) → WebhookAuth

pub record WebhookConfig : Type 0 where
  pub url : String
  pub auth : Option WebhookAuth

pub data ChannelConfig : Type 0 where
  telegram_config : TelegramConfig → ChannelConfig
  discord_config : DiscordConfig → ChannelConfig
  webhook_config : WebhookConfig → ChannelConfig

unfoldable pub channel_type : ChannelConfig → ChannelType
channel_type (telegram_config c) = telegram
channel_type (discord_config c) = discord
channel_type (webhook_config c) = webhook

-- The token's two parts, if it has a colon.
check_shape : Option (String × String) → Result String (Unit {0})
unfolding all_chars is_ascii_digit
check_shape none = err "telegram.bot_token must contain `:`"
check_shape (some (prefix, suffix)) = do
  check (not (is_empty prefix || not (all_chars is_ascii_digit prefix)))
      "telegram.bot_token has an invalid shape"
  check (not (is_empty suffix || ltb 100 (len suffix))) "telegram.bot_token has an invalid shape"

-- parse::<i64>().is_ok()
unfoldable pub is_i64 : String → Bool
unfolding parse_unsigned
is_i64 String.[] = false
is_i64 (String.◌∷◌ ch s) =
    if code ch == b'-'
    then all_digits_upto (2 ^ 63) s
    else is_some (parse_unsigned (2 ^ 63 - 1) (String.◌∷◌ ch s))
  where
    all_digits_upto : ℕ → String → Bool
    all_digits_upto most t = not (starts_with t "+") && is_some (parse_unsigned most t)

unfoldable pub validate_telegram : TelegramConfig → Result String (Unit {0})
unfolding trim split_once check_shape is_i64
validate_telegram c =
    let token = trim c.bot_token in
    let chat = trim c.chat_id in
    do
      check (not (is_empty token)) "telegram.bot_token must not be empty"
      check (leb (len token) 200) "telegram.bot_token is too long"
      check_shape (split_once b':' token)
      check (not (is_empty chat)) "telegram.chat_id must not be empty"
      check (leb (len chat) 100) "telegram.chat_id is too long"
      check (is_i64 chat || starts_with chat "@" && ltb 1 (len chat))
          "telegram.chat_id is not a valid id or @username"

-- What `validate` reads of a parsed URL.
pub record UrlParts : Type 0 where
  pub scheme : String
  pub host_str : Option String
  pub path : String

abbrev or_empty : Option String → String
or_empty none = ""
or_empty (some host) = host

-- discord.com, discordapp.com, and the subdomains of the first.
unfoldable pub is_discord_host : String → Bool
unfolding ends_with
is_discord_host host =
    str_eq host "discord.com" || str_eq host "discordapp.com" || ends_with host ".discord.com"

module _ (parse_url : String → Option UrlParts) where
  check_discord_url : Option UrlParts → Result String (Unit {0})
  unfolding is_discord_host
  check_discord_url none = err "discord.webhook_url is not a URL"
  check_discord_url (some url) = do
    check (str_eq url.scheme "https") "discord.webhook_url must use https"
    check (is_discord_host (or_empty url.host_str)) "discord.webhook_url must point at discord.com"
    check (starts_with url.path "/api/webhooks/") "discord.webhook_url is not a webhook URL"

  unfoldable pub validate_discord : DiscordConfig → Result String (Unit {0})
  unfolding trim check_discord_url
  validate_discord c =
      let raw = trim c.webhook_url in
      do
        check (not (is_empty raw)) "discord.webhook_url must not be empty"
        check (leb (len raw) 500) "discord.webhook_url is too long"
        check_discord_url (parse_url raw)

  check_webhook_url : Option UrlParts → Result String (Unit {0})
  check_webhook_url none = err "webhook.url is not a URL"
  check_webhook_url (some url) = check (str_eq url.scheme "https") "webhook.url must use https"

  check_auth : Option WebhookAuth → Result String (Unit {0})
  unfolding trim
  check_auth none = ok tt
  check_auth (some (bearer token)) = do
    check (not (is_empty (trim token))) "webhook.auth.token must not be empty"
    check (leb (len token) 1024) "webhook.auth.token is too long"
  check_auth (some (hmac secret)) = do
    check (not (is_empty (trim secret))) "webhook.auth.secret must not be empty"
    check (leb (len secret) 1024) "webhook.auth.secret is too long"

  unfoldable pub validate_webhook : WebhookConfig → Result String (Unit {0})
  unfolding trim check_webhook_url check_auth
  validate_webhook c =
      let raw = trim c.url in
      do
        check (not (is_empty raw)) "webhook.url must not be empty"
        check (leb (len raw) 2000) "webhook.url is too long"
        check_webhook_url (parse_url raw)
        check_auth c.auth

  unfoldable pub validate_config : ChannelConfig → Result String (Unit {0})
  unfolding validate_telegram validate_discord validate_webhook
  validate_config (telegram_config c) = validate_telegram c
  validate_config (discord_config c) = validate_discord c
  validate_config (webhook_config c) = validate_webhook c
