-- ===== src/Worker/Poller.antt =====
-- src/worker/poller.rs: one delivery, and one tick of the worker's loop.
-- `decrypt` and `decode` are SecretKey::decrypt and serde_json::from_slice; `deliver` is
-- `send_via_config` of Notifications/Senders with its surroundings given.
pub mod Calm
pub mod Settled
use Prim.Native.String.{◌++◌ as str_append}
use text.Mathlib.Text.{◌==◌ as str_eq}
use legaltech_contract_autom.Common.{
  ℕ, ℤ, String, Bool, true, false, ◌&&◌, Option, none, some, if◌then◌else◌, ◌==◌, List, [], ◌∷◌,
  find, Result, ok, err,
}
use legaltech_contract_autom.Reminders.Types.{
  ChannelType, parse_channel, as_str_channel, channel_eq,
}
use legaltech_contract_autom.Db.Models.{
  Reminder, Contract, ContractObligation, NotificationChannel, Database,
}
use legaltech_contract_autom.Db.Session.{
  Db, DbError, World, statement, pure, throw, map_err, lifted, after, ignore, attempt, ◌>>=◌, ◌>>◌,
}
use legaltech_contract_autom.Db.Contracts.{recover_stale_pending_analyses}
use legaltech_contract_autom.Notifications.Channel.{
  Notification, DeliveryError, transient, unknown_channel, not_configured, is_retryable,
}
use legaltech_contract_autom.Notifications.Config.{ChannelConfig, channel_type}
use legaltech_contract_autom.Worker.Claim.{ClaimedReminder, claim_due}
use legaltech_contract_autom.Worker.Outcome.{Stop, sqlx, mark_sent, schedule_retry_or_fail}
use legaltech_contract_autom.Worker.Recovery.{recover_stale_processing}

unfoldable pub humanize_reminder_type : String → String
humanize_reminder_type s =
    if str_eq s "7_days_before"
    then "7 days before the deadline"
    else if str_eq s "3_days_before"
    then "3 days before the deadline"
    else if str_eq s "1_day_before"
    then "1 day before the deadline"
    else if str_eq s "on_deadline"
    then "on the deadline"
    else if str_eq s "custom"
    then "custom reminder"
    else s

-- SELECT title, user_id FROM contracts WHERE id = $1
unfoldable pub find_contract_row : ℕ → Db DbError (Option Contract)
find_contract_row id = statement λ now fresh db. (find (λ c. c.id == id) db.contracts, db)

abbrev due_of : Option ContractObligation → Option ℕ
due_of none = none
due_of (some o) = o.due_date

-- The due date of the obligation, if the reminder has one.
unfoldable pub find_due_date : Option ℕ → Db DbError (Option ℕ)
find_due_date none = pure none
find_due_date (some id) =
    statement λ now fresh db. (due_of (find (λ o. o.id == id) db.obligations), db)

notification : ClaimedReminder → ChannelType → Contract → Option ℕ → Notification
unfolding humanize_reminder_type
notification claimed channel c due_date = record {
  reminder_id = claimed.id;
  contract_id = claimed.contract_id;
  obligation_id = claimed.obligation_id;
  title = c.title;
  message = str_append "Reminder: " (humanize_reminder_type claimed.reminder_type);
  due_date = due_date;
  reminder_type = claimed.reminder_type;
  channel_type = channel;
}

-- The rest of `build_notification`, with the contract's row; the owner goes with it.
unfoldable pub with_contract :
    ClaimedReminder → ChannelType → Option Contract → Db DbError (Option (Notification × ℕ))
unfolding notification find_due_date
with_contract claimed channel none = pure none
with_contract claimed channel (some c) = do
  due_date ← find_due_date claimed.obligation_id
  pure (some (notification claimed channel c due_date, c.user_id))

unfoldable pub with_channel :
    ClaimedReminder → Option ChannelType → Db DbError (Option (Notification × ℕ))
unfolding with_contract find_contract_row
with_channel claimed none = pure none
with_channel claimed (some channel) = do
  row ← find_contract_row claimed.contract_id
  with_contract claimed channel row

unfoldable pub build_notification : ClaimedReminder → Db DbError (Option (Notification × ℕ))
unfolding with_channel
build_notification claimed = with_channel claimed (parse_channel claimed.channel_type)

-- src/notifications/store.rs: WHERE user_id = $1 AND channel_type = $2 AND enabled = TRUE LIMIT 1
unfoldable pub find_enabled_channel_for_user_by_type :
    ℕ → ChannelType → Db DbError (Option NotificationChannel)
find_enabled_channel_for_user_by_type user_id channel = statement λ now fresh db. (
  find
      (λ ch. ch.user_id == user_id && str_eq ch.channel_type (as_str_channel channel) && ch.enabled)
      db.channels,
  db,
)

-- ANALYSIS_STALE_SECS
abbrev pub analysis_stale_secs : ℕ
analysis_stale_secs = 900

-- What the delivery of one claimed reminder finds out before an outcome is stored.
pub data Verdict : Type 0 where
  delivered : Verdict
  undelivered : DeliveryError → (budget : ℕ) → Verdict

module _ (duration_seconds : ℤ → Option ℤ) (decrypt : List ℕ → Option (List ℕ))
    (decode : List ℕ → Option ChannelConfig)
    (deliver : ChannelConfig → Notification → Result DeliveryError (Unit {0})) where
  -- The retry budget after an answer of the channel.
  unfoldable pub judged : ℕ → Result DeliveryError (Unit {0}) → Verdict
  judged max_retries (ok _) = delivered
  judged max_retries (err e) = undelivered e (if is_retryable e then max_retries else 0)

  -- The stored configuration is for another type of channel than the reminder.
  unfoldable pub configured : ℕ → Notification → Option ChannelConfig → Verdict
  unfolding judged channel_eq channel_type
  configured max_retries n none = undelivered not_configured 0
  configured max_retries n (some config) =
      let sent = judged max_retries (deliver config n) in
      if channel_eq (channel_type config) n.channel_type
      then sent
      else undelivered unknown_channel 0

  unfoldable pub decrypted : ℕ → Notification → Option (List ℕ) → Verdict
  unfolding configured
  decrypted max_retries n none = undelivered not_configured 0
  decrypted max_retries n (some bytes) = configured max_retries n (decode bytes)

  -- The outcome of the channel's lookup.
  unfoldable pub looked_up :
      ℕ → Notification → Result DbError (Option NotificationChannel) → Verdict
  unfolding decrypted
  looked_up max_retries n (err e) = undelivered transient max_retries
  looked_up max_retries n (ok none) = undelivered not_configured 0
  looked_up max_retries n (ok (some ch)) = decrypted max_retries n (decrypt ch.encrypted_config)

  -- The outcome of `build_notification`.
  unfoldable pub built : ℕ → Result DbError (Option (Notification × ℕ)) → Db Stop Verdict
  unfolding looked_up
  built max_retries (err e) = pure (undelivered transient max_retries)
  built max_retries (ok none) = pure (undelivered unknown_channel 0)
  built max_retries (ok (some (n, user_id))) = do
    found ← attempt (find_enabled_channel_for_user_by_type user_id n.channel_type)
    pure (looked_up max_retries n found)

  -- The outcome that is stored; its own failure is only logged.
  unfoldable pub stored : String → ClaimedReminder → ℕ → ℕ → Verdict → Db Stop (Unit {0})
  stored worker_id claimed early late delivered = ignore (mark_sent claimed.id worker_id)
  stored worker_id claimed early late (undelivered e budget) =
      ignore (schedule_retry_or_fail duration_seconds claimed.id worker_id e budget early late)

  -- `early` and `late` are the clock's microseconds that a retry's backoff reads.
  unfoldable pub deliver_one :
      (worker_id : String) (max_retries early late : ℕ) → ClaimedReminder → Db Stop (Unit {0})
  unfolding built stored
  deliver_one worker_id max_retries early late claimed = do
    notice ← attempt (build_notification claimed)
    verdict ← built max_retries notice
    stored worker_id claimed early late verdict

  -- The tasks of one tick, in one of the orders in which they may end.
  unfoldable pub deliver_all :
      String → (max_retries early late : ℕ) → List ClaimedReminder → Db Stop (Unit {0})
  deliver_all worker_id max_retries early late [] = pure tt
  deliver_all worker_id max_retries early late (c ∷ cs) = do
    deliver_one worker_id max_retries early late c
    deliver_all worker_id max_retries early late cs

  -- What `claim_due` returned; an error ends the tick.
  unfoldable pub dispatch :
      String
      → (max_retries early late : ℕ) → Result DbError (List ClaimedReminder)
      → Db Stop (Unit {0})
  dispatch worker_id max_retries early late (err e) = pure tt
  dispatch worker_id max_retries early late (ok claimed) =
      deliver_all worker_id max_retries early late claimed

  -- One tick of the loop in `spawn`.
  unfoldable pub tick :
      (worker_id : String) (claim_timeout batch_size max_retries : ℕ)
      → (locked : ℕ → Bool) (early late : ℕ) → Db Stop (Unit {0})
  tick worker_id claim_timeout batch_size max_retries locked early late = do
    ignore (recover_stale_processing claim_timeout)
    ignore (recover_stale_pending_analyses analysis_stale_secs)
    claimed ← attempt (claim_due locked worker_id batch_size)
    dispatch worker_id max_retries early late claimed
