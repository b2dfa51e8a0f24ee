-- ===== src/Worker/Poller/Settled.antt =====
-- A delivery of src/worker/poller.rs that meets no fault leaves no claim behind.
use legaltech_contract_autom.Common.{
  ℕ, ◌+◌, ◌≤◌, ℤ, pos, Option, some, none, is_some, String, Bool, true, false, ◌≡◌, refl,
  Bool-cases, Option-cases, inl, inr, List, [], ◌∷◌, any, arith, ok, err, Result,
}
use legaltech_contract_autom.Reminders.Types.{channel_eq}
use legaltech_contract_autom.Db.Models.{Reminder, NotificationChannel}
use legaltech_contract_autom.Db.Session.{
  World, DbError, seen, clock, statement, map_err, pure, after,
}
use legaltech_contract_autom.Db.Reminders.{update_where, is_processing}
use legaltech_contract_autom.Notifications.Channel.{
  DeliveryError, Notification, safe_category, retry_after_seconds, not_configured, unknown_channel,
  transient,
}
use legaltech_contract_autom.Notifications.Config.{ChannelConfig, channel_type}
use legaltech_contract_autom.Worker.Claim.{ClaimedReminder}
use legaltech_contract_autom.Worker.Outcome.{
  Stop, sqlx, is_held, sent_row, mark_sent, retry_row, failed_row, as_i64, capped, jitter,
  held_attempts, select_held, update_held, will_retry, compute_backoff, backoff, reschedule, settle,
  schedule_retry_or_fail,
}
use legaltech_contract_autom.Worker.Outcome.Settled.{after_read}
use legaltech_contract_autom.Worker.Poller.Calm.{IsCalm, Calm-statement, build_notification-Calm}
use legaltech_contract_autom.Worker.Poller.{
  judged, configured, decrypted, looked_up, build_notification,
  find_enabled_channel_for_user_by_type, Verdict, delivered, undelivered, built, stored,
  deliver_one,
}

-- An update that ends the processing of the held rows leaves none held.
released :
    (id : ℕ) (worker : String) (s : Reminder)
    → is_processing s.status ≡ false
    → is_held id worker s ≡ false
unfolding is_held
released id worker s h = ground arith

none_held :
    (id : ℕ) (worker : String) (change : Reminder → Reminder) (rows : List Reminder)
    → ((r : Reminder) → is_processing (change r).status ≡ false)
    → any (is_held id worker) (update_where (is_held id worker) change rows) ≡ false
none_held id worker change [] ends = refl
none_held id worker change (r ∷ rows) ends = elim (Bool-cases (is_held id worker r)) [
  | inl e ↦ rw (e, released id worker (change r) (ends r)) (none_held id worker change rows ends)
  | inr e ↦ rw (e, e) (none_held id worker change rows ends)
]

not_found_not_held :
    (id : ℕ) (worker : String) (rows : List Reminder)
    → held_attempts id worker rows ≡ none
    → any (is_held id worker) rows ≡ false
unfolding held_attempts
not_found_not_held id worker [] h = refl
not_found_not_held id worker (r ∷ rows) h = elim (Bool-cases (is_held id worker r)) [
  | inl e ↦ absurd (ground arith)
  | inr e ↦ ground (arith, not_found_not_held id worker rows)
]

-- Nobody holds the row under this worker's id.
abbrev pub IsReleased : ℕ → String → World → Type 0
IsReleased id worker w = any (is_held id worker) w.db.reminders ≡ false

sent_ends : (now : ℕ) (r : Reminder) → is_processing (sent_row now r).status ≡ false
unfolding sent_row
sent_ends now r = refl

retry_ends :
    (category : String) (delay : ℤ) (now : ℕ) (r : Reminder)
    → is_processing (retry_row now category delay r).status ≡ false
unfolding retry_row
retry_ends category delay now r = refl

failed_ends :
    (category : String) (now : ℕ) (r : Reminder)
    → is_processing (failed_row now category r).status ≡ false
unfolding failed_row
failed_ends category now r = refl

mark_sent-IsReleased :
    (id : ℕ) (worker : String) (w : World)
    → IsCalm w
    → IsReleased id worker (mark_sent id worker w).1
unfolding mark_sent statement
mark_sent-IsReleased id worker w c =
    rw (c w.tick)
      (none_held id worker (sent_row (clock w)) (seen w).reminders (sent_ends (clock w)))

update_held-IsReleased :
    (id : ℕ) (worker : String) (change : ℕ → Reminder → Reminder) (w : World)
    → IsCalm w
    → ((now : ℕ) (r : Reminder) → is_processing (change now r).status ≡ false)
    → IsReleased id worker (map_err sqlx (update_held id worker change) w).1
unfolding update_held statement
update_held-IsReleased id worker change w c ends =
    rw (c w.tick) (none_held id worker (change (clock w)) (seen w).reminders (ends (clock w)))

-- i64::MAX / 1000, the most seconds of a Duration that chrono documents not to panic.
abbrev pub most_seconds : ℕ
most_seconds = 9_223_372_036_854_775

-- The provider's hint, if there is one, is a delay that chrono can represent.
abbrev pub HintFits : DeliveryError → Type 0
HintFits e = (secs : ℕ) → retry_after_seconds e ≡ some secs → secs ≤ most_seconds

-- Those of the worker's own errors carry no hint.
HintFits-none : (e : DeliveryError) → retry_after_seconds e ≡ none → HintFits e
HintFits-none e none_there secs found = absurd (cc)

abbrev VerdictFits : Verdict → Type 0
VerdictFits delivered = Unit
VerdictFits (undelivered e budget) = HintFits e

as_i64-pos : (n : ℕ) → n ≤ most_seconds → as_i64 n ≡ pos n
unfolding as_i64
as_i64-pos n h = ground arith

wait_le : (n micros : ℕ) → capped n + jitter micros ≤ most_seconds
unfolding capped jitter
wait_le n micros = ground arith

module _ (duration_seconds : ℤ → Option ℤ)
    (representable : (n : ℕ) → n ≤ most_seconds → is_some (duration_seconds (pos n)) ≡ true) where
  computes :
      (e : DeliveryError) (n micros : ℕ)
      → HintFits e
      → is_some (compute_backoff duration_seconds e n micros) ≡ true
  unfolding compute_backoff
  computes e n micros fits = elim (Option-cases (retry_after_seconds e)) [
    | inl gone ↦
        rw (gone, compute_backoff) (representable (capped n + jitter micros) (wait_le n micros))
    | inr (secs, found) ↦
        rw (found, compute_backoff, as_i64-pos secs (fits secs found))
          (representable secs (fits secs found))
  ]

  backoff-Steady :
      (e : DeliveryError) (n micros : ℕ)
      → HintFits e
      → (delay : ℤ) × ((w : World) → backoff duration_seconds e n micros w ≡ (ok delay, w))
  unfolding backoff
  backoff-Steady e n micros fits =
      elim (Option-cases (compute_backoff duration_seconds e n micros)) [
        | inl gone ↦ absurd (ground (arith, computes e n micros fits))
        | inr (d, found) ↦ (d, λ w. ground arith)
      ]

  reschedule-IsReleased :
      (id : ℕ) (worker : String) (e : DeliveryError) (attempts micros : ℕ) (retry : Bool)
      (w : World)
      → HintFits e
      → IsCalm w
      → IsReleased id worker (reschedule duration_seconds id worker e attempts micros retry w).1
  unfolding reschedule
  reschedule-IsReleased id worker e attempts micros true w fits c =
      let (delay, steady) = backoff-Steady e attempts micros fits in
      rw (steady w) (update_held-IsReleased id worker _ w c (retry_ends (safe_category e) delay))
  reschedule-IsReleased id worker e attempts micros false w fits c =
      update_held-IsReleased id worker _ w c (failed_ends (safe_category e))

  settle-IsReleased :
      (id : ℕ) (worker : String) (e : DeliveryError) (budget micros : ℕ) (u : World)
      → HintFits e
      → IsCalm u
      → (held : Option ℕ) → held_attempts id worker u.db.reminders ≡ held
      → IsReleased id worker (settle duration_seconds id worker e budget micros held u).1
  unfolding settle
  settle-IsReleased id worker e budget micros u fits c none lost =
      not_found_not_held id worker u.db.reminders lost
  settle-IsReleased id worker e budget micros u fits c (some n) found =
      keeps_world _ (reschedule-IsReleased id worker e n micros (will_retry e n budget) u fits c)
    where
      keeps_world :
          (p : Result Stop (Unit {0}) × World)
          → IsReleased id worker p.1
          → IsReleased id worker (after {B = Bool} (λ _. pure (will_retry e n budget)) p).1
      keeps_world (ok a, v) h = h
      keeps_world (err x, v) h = h

  schedule-IsReleased :
      (id : ℕ) (worker : String) (e : DeliveryError) (budget early late : ℕ) (w : World)
      → HintFits e
      → IsCalm w
      → IsReleased id worker
          (schedule_retry_or_fail duration_seconds id worker e budget early late w).1
  unfolding schedule_retry_or_fail select_held statement
  schedule-IsReleased id worker e budget early late w fits c =
      let (delay, steady) = backoff-Steady e 0 early fits in
      rw (steady w, c w.tick)
        (settle-IsReleased id worker e budget late (after_read w) fits c _ refl)

  module _ (decrypt : List ℕ → Option (List ℕ)) (decode : List ℕ → Option ChannelConfig)
      (deliver : ChannelConfig → Notification → Result DeliveryError (Unit {0}))
      (hints : (config : ChannelConfig) (n : Notification) (e : DeliveryError)
        → deliver config n ≡ err e
        → HintFits e) where
    judged-Fits :
        (max_retries : ℕ) (config : ChannelConfig) (n : Notification)
        → VerdictFits
            (judged duration_seconds decrypt decode deliver max_retries (deliver config n))
    unfolding judged
    judged-Fits max_retries config n = go (deliver config n) refl
      where
        go :
            (r : Result DeliveryError (Unit {0}))
            → deliver config n ≡ r
            → VerdictFits (judged duration_seconds decrypt decode deliver max_retries r)
        go (ok _) same = tt
        go (err e) same = hints config n e same

    configured-Fits :
        (max_retries : ℕ) (n : Notification) (o : Option ChannelConfig)
        → VerdictFits (configured duration_seconds decrypt decode deliver max_retries n o)
    unfolding configured retry_after_seconds
    configured-Fits max_retries n none = HintFits-none not_configured refl
    configured-Fits max_retries n (some config) =
        elim (Bool-cases (channel_eq (channel_type config) n.channel_type)) [
          | inl e ↦ rw e (judged-Fits max_retries config n)
          | inr e ↦ rw e (HintFits-none unknown_channel refl)
        ]

    decrypted-Fits :
        (max_retries : ℕ) (n : Notification) (o : Option (List ℕ))
        → VerdictFits (decrypted duration_seconds decrypt decode deliver max_retries n o)
    unfolding decrypted retry_after_seconds
    decrypted-Fits max_retries n none = HintFits-none not_configured refl
    decrypted-Fits max_retries n (some bytes) = configured-Fits max_retries n (decode bytes)

    looked_up-Fits :
        (max_retries : ℕ) (n : Notification) (r : Result DbError (Option NotificationChannel))
        → VerdictFits (looked_up duration_seconds decrypt decode deliver max_retries n r)
    unfolding looked_up retry_after_seconds
    looked_up-Fits max_retries n (err e) = HintFits-none transient refl
    looked_up-Fits max_retries n (ok none) = HintFits-none not_configured refl
    looked_up-Fits max_retries n (ok (some ch)) =
        decrypted-Fits max_retries n (decrypt ch.encrypted_config)

    stored-IsReleased :
        (worker : String) (claimed : ClaimedReminder) (early late : ℕ) (v : Verdict) (w : World)
        → VerdictFits v
        → IsCalm w
        → IsReleased claimed.id worker
            (stored duration_seconds decrypt decode deliver worker claimed early late v w).1
    unfolding stored
    stored-IsReleased worker claimed early late delivered w fits c =
        mark_sent-IsReleased claimed.id worker w c
    stored-IsReleased worker claimed early late (undelivered e budget) w fits c =
        schedule-IsReleased claimed.id worker e budget early late w fits c

    -- The verdict is a value, and the connection stays calm on the way to it.
    built-Reached :
        (max_retries : ℕ) (r : Result DbError (Option (Notification × ℕ))) (w : World)
        → IsCalm w
        → (v : Verdict) × (u : World) × (built duration_seconds decrypt decode deliver max_retries r
              w
            ≡ (ok v, u))
          × VerdictFits v
          × IsCalm u
    unfolding built find_enabled_channel_for_user_by_type retry_after_seconds
    built-Reached max_retries (err e) w c = (_, w, refl, HintFits-none transient refl, c)
    built-Reached max_retries (ok none) w c = (_, w, refl, HintFits-none unknown_channel refl, c)
    built-Reached max_retries (ok (some (n, user_id))) w c =
        (_, _, refl, looked_up-Fits max_retries n _, (Calm-statement _).calm w c)

    -- If no statement is refused from the delivery's start on, chrono represents every duration from 0
    -- to i64::MAX / 1000 seconds, and no channel answers with a Retry-After above that, then the
    -- delivery of a claimed reminder ends with the reminder no longer processed under this worker's
    -- id, whatever else the channel answers, whatever is configured, and whatever others do meanwhile.
    pub deliver_one-IsReleased :
        (worker : String) (max_retries early late : ℕ) (claimed : ClaimedReminder) (w : World)
        → IsCalm w
        → IsReleased claimed.id worker
            (deliver_one duration_seconds decrypt decode deliver worker max_retries early late
              claimed w).1
    unfolding deliver_one
    deliver_one-IsReleased worker max_retries early late claimed w c =
        let w₁ = (build_notification claimed w).1 in
        let (v, u, reached, fits, calm) =
          built-Reached max_retries (build_notification claimed w).0 w₁
            ((build_notification-Calm claimed).calm w c) in
        rw reached (stored-IsReleased worker claimed early late v u fits calm)
