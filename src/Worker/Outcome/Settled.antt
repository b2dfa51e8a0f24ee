-- ===== src/Worker/Outcome/Settled.antt =====
-- What `schedule_retry_or_fail` of src/worker/outcome.rs leaves behind.
use mathlib.Core.Path.{subst}
use legaltech_contract_autom.Common.{
  ℕ, suc, ◌+◌, ◌<◌, ◌≤◌, ℤ, Option, some, none, String, Bool, true, false, ◌≡◌, refl, sym,
  Option-cases, Bool-cases, ◌⊎◌, inl, inr, pos, if◌then◌else◌, arith, ok, List, [], ◌∷◌, All,
}
use legaltech_contract_autom.Reminders.Types.{pending, failed}
use legaltech_contract_autom.Db.Models.{Reminder}
use legaltech_contract_autom.Db.Session.{World, seen, clock}
use legaltech_contract_autom.Db.Inversion.{after-ok, lifted-ok, statement-ok}
use legaltech_contract_autom.Db.Reminders.{update_where}
use legaltech_contract_autom.Notifications.Channel.{
  DeliveryError, safe_category, is_retryable, not_configured, unsafe_destination, invalid_url,
  timeout, rate_limited, transient, permanent, unknown_channel, other,
}
use legaltech_contract_autom.Worker.Outcome.{
  sqlx, is_held, retry_row, failed_row, held_attempts, select_held, update_held, will_retry, later,
  compute_backoff, backoff, reschedule, settle, schedule_retry_or_fail,
}
use legaltech_contract_autom.Worker.Outcome.Held.{
  IsHeldBy, Updates, is_held-IsHeldBy, not_held, update_where-Updates,
}

-- The row after the outcome.
abbrev pub outcome_row : DeliveryError → (retried : Bool) → ℤ → ℕ → Reminder → Reminder
outcome_row e retried delay now r =
    if retried then retry_row now (safe_category e) delay r else failed_row now (safe_category e) r

-- The connection after one statement that read the tables.
abbrev pub after_read : World → World
after_read w = record w { db = seen w; tick = suc w.tick }

-- A failure that may pass: a timeout, a rate limit, or one that the provider calls transient.
abbrev pub MayPass : DeliveryError → Type 0
MayPass e = (e ≡ timeout) ⊎ ((e ≡ transient) ⊎ ((hint : Option ℕ) × (e ≡ rate_limited hint)))

may_pass : (e : DeliveryError) → is_retryable e ≡ true → MayPass e
unfolding is_retryable
may_pass timeout h = inl refl
may_pass transient h = inr (inl refl)
may_pass (rate_limited hint) h = inr (inr (hint, refl))
may_pass not_configured h = absurd (cc)
may_pass unsafe_destination h = absurd (cc)
may_pass invalid_url h = absurd (cc)
may_pass (permanent code) h = absurd (cc)
may_pass unknown_channel h = absurd (cc)
may_pass other h = absurd (cc)

never_passes : (e : DeliveryError) → is_retryable e ≡ false → MayPass e → ⊥
unfolding is_retryable
never_passes e h (inl same) = absurd (let e' = rw same at h in cc)
never_passes e h (inr (inl same)) = absurd (let e' = rw same at h in cc)
never_passes e h (inr (inr (hint, same))) = absurd (let e' = rw same at h in cc)

module _ (duration_seconds : ℤ → Option ℤ) (reminder_id : ℕ) (worker_id : String)
    (e : DeliveryError) where
  backoff-ok :
      (attempt micros : ℕ) (w : World) {v : World} {delay : ℤ}
      → backoff duration_seconds e attempt micros w ≡ (ok delay, v)
      → (compute_backoff duration_seconds e attempt micros ≡ some delay) × (v ≡ w)
  unfolding backoff
  backoff-ok attempt micros w h =
      elim (Option-cases (compute_backoff duration_seconds e attempt micros)) [
        | inl none_left ↦ absurd (ground arith)
        | inr (d, found) ↦ (ground arith, ground arith)
      ]

  reschedule-ok :
      (attempts micros : ℕ) (retried : Bool) (w : World) {w' : World}
      → reschedule duration_seconds reminder_id worker_id e attempts micros retried w ≡ (ok tt, w')
      → (delay : ℤ) × ((retried ≡ false)
          ⊎ (compute_backoff duration_seconds e attempts micros ≡ some delay))
        × (w'.db.reminders
            ≡ update_where
                (is_held reminder_id worker_id)
                (outcome_row e retried delay (clock w))
                (seen w).reminders)
  unfolding reschedule update_held
  reschedule-ok attempts micros true w h =
      let (delay, v, computed, rest) = after-ok _ _ h in
      let (found, same) = backoff-ok attempts micros w computed in
      let (_, moved) = statement-ok _ v (lifted-ok sqlx _ rest) in (delay, inr found, ground arith)
  reschedule-ok attempts micros false w h =
      let (_, moved) = statement-ok _ w (lifted-ok sqlx _ h) in (pos 0, inl refl, ground arith)

  -- What follows the lookup of the row, in the connection `u`.
  abbrev pub Traced : (budget late : ℕ) → Option ℕ → (retried : Bool) → World → World → Type 0
  Traced budget late held retried u w' =
      ((held ≡ none) × (retried ≡ false) × (w'.db ≡ u.db))
      ⊎ ((attempts : ℕ) × (held ≡ some attempts)
          × (retried ≡ will_retry e attempts budget)
          × (delay : ℤ) × ((retried ≡ false)
              ⊎ (compute_backoff duration_seconds e attempts late ≡ some delay))
          × (w'.db.reminders
              ≡ update_where (is_held reminder_id worker_id) (outcome_row e retried delay (clock u))
                  (seen u).reminders))

  settle-ok :
      (budget late : ℕ) (held : Option ℕ) (retried : Bool) (u w' : World)
      → settle duration_seconds reminder_id worker_id e budget late held u ≡ (ok retried, w')
      → Traced budget late held retried u w'
  unfolding settle
  settle-ok budget late none retried u w' h = inl (refl, ground arith, ground arith)
  settle-ok budget late (some attempts) retried u w' h =
      let (_, x, recorded, final) = after-ok _ _ h in
      let (delay, timed, written) = reschedule-ok attempts late _ u recorded in
      let answer : will_retry e attempts budget ≡ retried = ground arith in
      let here : x ≡ w' = ground arith in
      inr (attempts, refl, sym answer, delay, rw answer at timed, rw (answer, here) at written)

  schedule_retry_or_fail-Traced :
      (budget early late : ℕ) (retried : Bool) (w w' : World)
      → schedule_retry_or_fail duration_seconds reminder_id worker_id e budget early late w
        ≡ (ok retried, w')
      → Traced budget late
          (held_attempts reminder_id worker_id (seen w).reminders)
          retried
          (after_read w)
          w'
  unfolding schedule_retry_or_fail select_held
  schedule_retry_or_fail-Traced budget early late retried w w' h =
      let (d, v, computed, rest) = after-ok _ _ h in
      let (_, same) = backoff-ok 0 early w computed in
      let (held, u, read, last) = after-ok _ _ (rw same at rest) in
      let (answer, moved) = statement-ok _ w (lifted-ok sqlx _ read) in
      rw (answer, moved) at (settle-ok budget late held retried u w' last)

  -- The row of a failure that is tried again, and of one that is not.
  abbrev pub BecomesPending : (now : ℕ) (delay : ℤ) → Reminder → Reminder → Type 0
  BecomesPending now delay r s = s ≡ record r {
    status = pending;
    attempts = r.attempts + 1;
    last_error = some (safe_category e);
    next_attempt_at = some (later now delay);
    claimed_at = none;
    claimed_by = none;
    updated_at = now;
  }

  abbrev pub BecomesFailed : (now : ℕ) → Reminder → Reminder → Type 0
  BecomesFailed now r s = s ≡ record r {
    status = failed;
    attempts = r.attempts + 1;
    last_error = some (safe_category e);
    claimed_at = none;
    claimed_by = none;
    updated_at = now;
  }

  -- The first held row of a table has made so many attempts.
  abbrev pub FirstHeld : (attempts : ℕ) → List Reminder → Type 0
  FirstHeld attempts [] = ⊥
  FirstHeld attempts (r ∷ rows) =
      (IsHeldBy reminder_id worker_id r × (r.attempts ≡ attempts))
      ⊎ ((IsHeldBy reminder_id worker_id r → ⊥) × FirstHeld attempts rows)

  -- A failure that is recorded, from the table that is read to the one that is written.
  abbrev pub Recorded : (budget late : ℕ) (retried : Bool) (w w' : World) → Type 0
  Recorded budget late retried w w' =
      (All (λ r. IsHeldBy reminder_id worker_id r → ⊥) (seen w).reminders
        × (retried ≡ false)
        × (w'.db ≡ seen w))
      ⊎ ((attempts : ℕ) × FirstHeld attempts (seen w).reminders
          × (((retried ≡ true)
                × MayPass e
                × (attempts + 1 < budget)
                × (delay : ℤ) × (compute_backoff duration_seconds e attempts late ≡ some delay)
                × Updates (IsHeldBy reminder_id worker_id)
                    (BecomesPending (clock (after_read w)) delay) (seen (after_read w)).reminders
                    w'.db.reminders)
              ⊎ ((retried ≡ false)
                  × ((MayPass e → ⊥) ⊎ (budget ≤ attempts + 1))
                  × Updates (IsHeldBy reminder_id worker_id) (BecomesFailed (clock (after_read w)))
                      (seen (after_read w)).reminders w'.db.reminders)))

  none_found :
      (rows : List Reminder)
      → held_attempts reminder_id worker_id rows ≡ none
      → All (λ r. IsHeldBy reminder_id worker_id r → ⊥) rows
  unfolding held_attempts
  none_found [] h = tt
  none_found (r ∷ rows) h = elim (Bool-cases (is_held reminder_id worker_id r)) [
    | inl q ↦ absurd (ground arith)
    | inr q ↦ (not_held reminder_id worker_id r q, none_found rows (rw (q, held_attempts) at h))
  ]

  first_found :
      (rows : List Reminder) (attempts : ℕ)
      → held_attempts reminder_id worker_id rows ≡ some attempts
      → FirstHeld attempts rows
  unfolding held_attempts
  first_found [] attempts h = absurd (cc)
  first_found (r ∷ rows) attempts h = elim (Bool-cases (is_held reminder_id worker_id r)) [
    | inl q ↦ inl (is_held-IsHeldBy reminder_id worker_id r q, ground arith)
    | inr q ↦
        inr (
          not_held reminder_id worker_id r q,
          first_found rows attempts (rw (q, held_attempts) at h),
        )
  ]

  settled :
      (attempts budget late : ℕ) (retried : Bool) (delay : ℤ) (w w' : World)
      → retried ≡ will_retry e attempts budget
      → (retried ≡ false) ⊎ (compute_backoff duration_seconds e attempts late ≡ some delay)
      → w'.db.reminders
        ≡ update_where
            (is_held reminder_id worker_id)
            (outcome_row e retried delay (clock w))
            (seen w).reminders
      → ((retried ≡ true)
          × MayPass e
          × (attempts + 1 < budget)
          × (delay : ℤ) × (compute_backoff duration_seconds e attempts late ≡ some delay)
          × Updates
              (IsHeldBy reminder_id worker_id)
              (BecomesPending (clock w) delay)
              (seen w).reminders
              w'.db.reminders)
        ⊎ ((retried ≡ false)
            × ((MayPass e → ⊥) ⊎ (budget ≤ attempts + 1))
            × Updates
                (IsHeldBy reminder_id worker_id)
                (BecomesFailed (clock w))
                (seen w).reminders
                w'.db.reminders)
  unfolding retry_row failed_row will_retry
  settled attempts budget late true delay w w' answer timed table = inl (
    refl,
    may_pass e (ground arith),
    ground arith,
    delay,
    elim timed [ inl never ↦ absurd (cc) | inr t ↦ t ],
    subst
        (Updates (IsHeldBy reminder_id worker_id) (BecomesPending (clock w) delay)
          (seen w).reminders)
        (sym table)
        (update_where-Updates reminder_id worker_id (retry_row (clock w) (safe_category e) delay)
          (seen w).reminders),
  )
  settled attempts budget late false delay w w' answer timed table = inr (
    refl,
    elim (Bool-cases (is_retryable e)) [
      | inl q ↦ inr (ground arith)
      | inr q ↦ inl (never_passes e q)
    ],
    subst (Updates (IsHeldBy reminder_id worker_id) (BecomesFailed (clock w)) (seen w).reminders)
        (sym table)
        (update_where-Updates reminder_id worker_id (failed_row (clock w) (safe_category e))
          (seen w).reminders),
  )

  -- A failed delivery that is recorded without an error. If no row under the id is in processing and
  -- claimed by this worker, nothing is written and the answer is `false`. Otherwise the first such
  -- row's attempts decide: the answer is `true` exactly if the failure is a timeout, a rate limit or
  -- transient and one more attempt is below the budget. Then each such row becomes pending without a
  -- claim, with the delay of `compute_backoff` for those attempts; else it becomes failed without a
  -- claim. Both count the attempt and store the failure's category, and every other row is what it
  -- was.
  pub schedule_retry_or_fail_lem :
      (budget early late : ℕ) (retried : Bool) (w w' : World)
      → schedule_retry_or_fail duration_seconds reminder_id worker_id e budget early late w
        ≡ (ok retried, w')
      → Recorded budget late retried w w'
  schedule_retry_or_fail_lem budget early late retried w w' h =
      elim (schedule_retry_or_fail-Traced budget early late retried w w' h) [
        | inl lost ↦ inl (none_found (seen w).reminders lost.0, lost.1, lost.2)
        | inr (attempts, found, answer, delay, timed, table) ↦ inr (
          attempts,
          first_found (seen w).reminders attempts found,
          settled attempts budget late retried delay (after_read w) w' answer timed table,
        )
      ]
