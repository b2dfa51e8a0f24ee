-- ===== src/Examples/Worker.antt =====
-- The worker's theorems at concrete inputs.
use legaltech_contract_autom.Common.{
  ℕ, ◌+◌, ◌*◌, ◌^◌, ◌≤◌, min, pos, Bool, true, false, not, ◌&&◌, ◌≡◌, refl, none, some, List, [],
  ◌∷◌, All, any, length, map, count, Result, ok, err, leb, is_some, Option, ℤ, negsuc, ◌⊎◌,
  if◌then◌else◌, ◌==◌, arith,
}
use legaltech_contract_autom.Db.Models.{Reminder, NotificationChannel}
use legaltech_contract_autom.Db.Session.{World, seen, clock, transaction, statement}
use legaltech_contract_autom.Notifications.Channel.{
  Notification, DeliveryError, transient, rate_limited, retry_after_seconds, is_retryable,
}
use legaltech_contract_autom.Notifications.Config.{ChannelConfig, telegram_config}
use legaltech_contract_autom.Worker.Claim.{
  ClaimedReminder, is_due, drains_before, select_due, to_claimed, claim_rows, claim_due,
}
use legaltech_contract_autom.Worker.Claim.Selection.{passed_over}
use legaltech_contract_autom.Worker.Claim.Exclusion.{claim_due_disjoint, now_of}
use legaltech_contract_autom.Worker.Claim.Claimed.{claim_due_lem}
use legaltech_contract_autom.Worker.Outcome.{
  Stop, mark_sent, held_attempts, select_held, update_held, will_retry, capped, compute_backoff,
  schedule_retry_or_fail,
}
use legaltech_contract_autom.Worker.Outcome.Backoff.{capped_lem, compute_backoff_lem}
use legaltech_contract_autom.Worker.Outcome.Ownership.{BecomesSent, mark_sent_lem}
use legaltech_contract_autom.Worker.Outcome.Held.{IsHeldBy, Updates, Somewhere}
use legaltech_contract_autom.Worker.Outcome.Settled.{Recorded, schedule_retry_or_fail_lem}
use legaltech_contract_autom.Worker.Recovery.{is_stale, recover_stale_processing}
use legaltech_contract_autom.Worker.Recovery.Recovered.{
  is_pending_row, recover_stale_processing_lem,
}
use legaltech_contract_autom.Worker.Poller.{deliver_one}
use legaltech_contract_autom.Worker.Poller.Settled.{
  IsReleased, HintFits, most_seconds, deliver_one-IsReleased,
}
use legaltech_contract_autom.Examples.Data.{quiet, due, held, small}

abbrev free : ℕ → Bool
free id = false

abbrev w₀ : World
w₀ = quiet small

-- The connection after the first claim.
abbrev w₁ : World
w₁ = (claim_due free "w2" 10 w₀).1

abbrev w₂ : World
w₂ = (claim_due free "w3" 10 w₁).1

first : claim_due free "w2" 10 w₀ ≡ (ok (to_claimed due ∷ []), w₁)
unfolding claim_due to_claimed transaction statement select_due claim_rows
first = refl

second : claim_due free "w3" 10 w₁ ≡ (ok [], w₂)
unfolding claim_due to_claimed transaction statement select_due claim_rows
second = refl

claim_due_disjoint_example :
    All (λ (y : ClaimedReminder). any (λ c. c.id == y.id) (to_claimed due ∷ []) ≡ false) []
unfolding claim_due to_claimed transaction statement select_due claim_rows
claim_due_disjoint_example =
    claim_due_disjoint free free "w2" "w3" 10 10 w₀ w₁ w₁ w₂ (to_claimed due ∷ []) [] first refl
      second

claim_due_lem_example :
    (rows : List Reminder) × (rows ≡ select_due (now_of w₀) free 10 (seen w₀).reminders)
    × (to_claimed due ∷ [] ≡ map to_claimed rows)
    × (length rows ≤ 10)
    × All (λ r. (is_due (now_of w₀) r && not (free r.id)) ≡ true) rows
    × All
        (λ r.
          All (λ s. drains_before r s ≡ true) (passed_over (now_of w₀) free 10 (seen w₀).reminders))
        rows
    × (w₁.db.reminders ≡ claim_rows (now_of w₀) "w2" (to_claimed due ∷ []) (seen w₀).reminders)
claim_due_lem_example = claim_due_lem free "w2" 10 w₀ w₁ (to_claimed due ∷ []) first

marked : mark_sent 8 "w1" w₀ ≡ (ok true, (mark_sent 8 "w1" w₀).1)
unfolding mark_sent statement
marked = refl

mark_sent_lem_example :
    ((true ≡ true)
      × Somewhere (IsHeldBy 8 "w1") (seen w₀).reminders
      × Updates
          (IsHeldBy 8 "w1")
          (BecomesSent (clock w₀))
          (seen w₀).reminders
          (mark_sent 8 "w1" w₀).1.db.reminders)
    ⊎ ((true ≡ false)
        × All (λ r. IsHeldBy 8 "w1" r → ⊥) (seen w₀).reminders
        × ((mark_sent 8 "w1" w₀).1.db.reminders ≡ (seen w₀).reminders))
mark_sent_lem_example = mark_sent_lem 8 "w1" true w₀ (mark_sent 8 "w1" w₀).1 marked

abbrev scheduled : Result Stop Bool × World
scheduled = schedule_retry_or_fail some 8 "w1" transient 3 0 0 w₀

retried : scheduled ≡ (ok true, scheduled.1)
unfolding schedule_retry_or_fail statement held_attempts will_retry is_retryable compute_backoff
    retry_after_seconds select_held update_held
retried = refl

schedule_retry_or_fail_lem_example : Recorded some 8 "w1" transient 3 0 true w₀ scheduled.1
schedule_retry_or_fail_lem_example =
    schedule_retry_or_fail_lem some 8 "w1" transient 3 0 0 true w₀ scheduled.1 retried

capped_lem_example : capped 3 ≡ min (30 * 2 ^ 3) 300
capped_lem_example = capped_lem 3

no_hint : retry_after_seconds transient ≡ none
unfolding retry_after_seconds
no_hint = refl

compute_backoff_lem_example :
    (extra : ℕ) × (extra ≤ 1)
    × (compute_backoff some transient 2 999_999 ≡ some (pos (min (30 * 2 ^ 2) 300 + extra)))
compute_backoff_lem_example = compute_backoff_lem some transient 2 999_999 no_hint (omega arith)

recovered : recover_stale_processing 300 w₀ ≡ (ok 1, (recover_stale_processing 300 w₀).1)
unfolding recover_stale_processing statement is_stale
recovered = refl

recover_stale_processing_lem_example :
    All (λ r. is_stale (clock w₀) 300 r ≡ false) (recover_stale_processing 300 w₀).1.db.reminders
    × (count is_pending_row (recover_stale_processing 300 w₀).1.db.reminders
        ≡ count is_pending_row (seen w₀).reminders + 1)
recover_stale_processing_lem_example =
    recover_stale_processing_lem 300 1 w₀ (recover_stale_processing 300 w₀).1 recovered

-- chrono's Duration::seconds as it is documented.
abbrev chrono : ℤ → Option ℤ
chrono (pos n) = if leb n most_seconds then some (pos n) else none
chrono (negsuc n) = if leb (n + 1) most_seconds then some (negsuc n) else none

chrono_represents : (n : ℕ) → n ≤ most_seconds → is_some (chrono (pos n)) ≡ true
chrono_represents n h = ground arith

-- A provider that asks every channel to wait for two minutes.
abbrev limited : ChannelConfig → Notification → Result DeliveryError (Unit {0})
limited config n = err (rate_limited (some 120))

limited-HintFits :
    (config : ChannelConfig) (n : Notification) (e : DeliveryError)
    → limited config n ≡ err e
    → HintFits e
unfolding retry_after_seconds
limited-HintFits config n e same secs found =
    let answer : rate_limited (some 120) ≡ e = cc in
    let hint : 120 ≡ secs = cc in omega (arith, hint)

abbrev chat : NotificationChannel
chat = record {
  id = 50;
  user_id = 2;
  channel_type = "telegram";
  name = "Chat";
  enabled = true;
  created_at = 100;
  updated_at = 100;
  last_tested_at = none;
  last_test_error = none;
  encrypted_config = 1 ∷ [];
}

abbrev configured_world : World
configured_world = quiet (record small { channels = chat ∷ [] })

abbrev settings : List ℕ → Option ChannelConfig
settings bytes = some (telegram_config (record { bot_token = "123:secret"; chat_id = "-100" }))

deliver_one-IsReleased_example :
    IsReleased 8 "w1"
      (deliver_one chrono
        (λ bytes. some bytes)
        settings
        limited
        "w1"
        3
        0
        0
        (to_claimed held)
        configured_world).1
unfolding to_claimed
deliver_one-IsReleased_example =
    deliver_one-IsReleased chrono chrono_represents (λ bytes. some bytes) settings limited
      limited-HintFits "w1" 3 0 0 (to_claimed held) configured_world (λ k. refl)
