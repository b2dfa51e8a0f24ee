-- ===== src/Lifecycle/Delivery.antt =====
-- The worker's tick (src/worker/) keeps every row valid.
use legaltech_contract_autom.Common.{
  ℕ, ℤ, String, Bool, true, false, Option, none, some, List, [], ◌∷◌, Result, ok, err,
}
use legaltech_contract_autom.Db.Models.{Contract}
use legaltech_contract_autom.Db.Session.{DbError, throw, pure}
use legaltech_contract_autom.Db.Preservation.{
  Keeps-pure, Keeps-throw, Keeps-ignore, Keeps-statement, Keeps-map_err, Keeps-transaction,
  Keeps-attempt,
}
use legaltech_contract_autom.Reminders.Types.{ChannelType, parse_channel}
use legaltech_contract_autom.Notifications.Channel.{Notification, DeliveryError, safe_category}
use legaltech_contract_autom.Notifications.Config.{ChannelConfig}
use legaltech_contract_autom.Worker.Claim.{
  ClaimedReminder, select_statement, update_statement, claim_selected, claim_due, claim_rows,
  claim_row,
}
use legaltech_contract_autom.Worker.Outcome.{
  Stop, sqlx, panicked, will_retry, compute_backoff, backoff, reschedule, settle,
  schedule_retry_or_fail,
}
use legaltech_contract_autom.Worker.Poller.{
  find_contract_row, find_due_date, with_contract, with_channel, build_notification,
  find_enabled_channel_for_user_by_type, analysis_stale_secs, Verdict, delivered, undelivered,
  looked_up, built, stored, deliver_one, deliver_all, dispatch, tick,
}
use legaltech_contract_autom.Lifecycle.{ReminderIsValid, IsValid}
use legaltech_contract_autom.Lifecycle.Rows.{All-update_where}
use legaltech_contract_autom.Lifecycle.Reminders.{
  KeepsValid, claim_row-IsValid, retry_row-IsValid, failed_row-IsValid, update_held-Keeps,
  mark_sent-Keeps, select_held-Keeps, recover_stale_processing-Keeps,
}
use legaltech_contract_autom.Lifecycle.Contracts.{recover_stale_pending_analyses-Keeps}
use legaltech_contract_autom.Lifecycle.Service.{Keeps-then}

select_statement-Keeps : (locked : ℕ → Bool) (n : ℕ) → KeepsValid (select_statement locked n)
unfolding select_statement
select_statement-Keeps locked n = Keeps-statement IsValid _ (λ now fresh db v. v)

update_statement-Keeps :
    (worker : String) (cs : List ClaimedReminder) → KeepsValid (update_statement worker cs)
unfolding update_statement claim_rows
update_statement-Keeps worker cs = Keeps-statement IsValid _ λ now fresh db v. record {
  reminders =
      All-update_where ReminderIsValid _ (claim_row now worker) _
        (λ r h e. claim_row-IsValid now worker r h) v.reminders;
  contracts = v.contracts;
}

claim_selected-Keeps :
    (worker : String) (cs : List ClaimedReminder) → KeepsValid (claim_selected worker cs)
unfolding claim_selected
claim_selected-Keeps worker [] = Keeps-pure IsValid []
claim_selected-Keeps worker (c ∷ cs) =
    Keeps-then _ _ (update_statement-Keeps worker (c ∷ cs)) λ _. Keeps-pure IsValid (c ∷ cs)

claim_due-Keeps :
    (locked : ℕ → Bool) (worker : String) (n : ℕ) → KeepsValid (claim_due locked worker n)
unfolding claim_due
claim_due-Keeps locked worker n = Keeps-transaction IsValid _ _ (
    Keeps-then _ _ (select_statement-Keeps locked n) λ claimed. claim_selected-Keeps worker claimed)

find_contract_row-Keeps : (id : ℕ) → KeepsValid (find_contract_row id)
unfolding find_contract_row
find_contract_row-Keeps id = Keeps-statement IsValid _ (λ now fresh db v. v)

find_due_date-Keeps : (o : Option ℕ) → KeepsValid (find_due_date o)
unfolding find_due_date
find_due_date-Keeps none = Keeps-pure IsValid none
find_due_date-Keeps (some id) = Keeps-statement IsValid _ (λ now fresh db v. v)

with_contract-Keeps :
    (claimed : ClaimedReminder) (channel : ChannelType) (o : Option Contract)
    → KeepsValid (with_contract claimed channel o)
unfolding with_contract
with_contract-Keeps claimed channel none = Keeps-pure IsValid none
with_contract-Keeps claimed channel (some c) =
    Keeps-then _ _ (find_due_date-Keeps claimed.obligation_id) λ due. Keeps-pure IsValid _

with_channel-Keeps :
    (claimed : ClaimedReminder) (o : Option ChannelType) → KeepsValid (with_channel claimed o)
unfolding with_channel
with_channel-Keeps claimed none = Keeps-pure IsValid none
with_channel-Keeps claimed (some channel) =
    Keeps-then _ _ (find_contract_row-Keeps claimed.contract_id)
      λ row. with_contract-Keeps claimed channel row

build_notification-Keeps : (claimed : ClaimedReminder) → KeepsValid (build_notification claimed)
unfolding build_notification
build_notification-Keeps claimed = with_channel-Keeps claimed (parse_channel claimed.channel_type)

find_channel-Keeps :
    (user_id : ℕ) (channel : ChannelType)
    → KeepsValid (find_enabled_channel_for_user_by_type user_id channel)
unfolding find_enabled_channel_for_user_by_type
find_channel-Keeps user_id channel = Keeps-statement IsValid _ (λ now fresh db v. v)

module _ (duration_seconds : ℤ → Option ℤ) where
  backoff-Keeps :
      (e : DeliveryError) (attempt micros : ℕ)
      → KeepsValid (backoff duration_seconds e attempt micros)
  unfolding backoff
  backoff-Keeps e attempt micros = go (compute_backoff duration_seconds e attempt micros)
    where
      go :
          (o : Option ℤ)
          → KeepsValid {E = Stop} {A = ℤ}
              (elim o [ none ↦ throw panicked | some delay ↦ pure delay ])
      go none = Keeps-throw IsValid _
      go (some delay) = Keeps-pure IsValid delay

  reschedule-Keeps :
      (reminder_id : ℕ) (worker : String) (e : DeliveryError) (attempts micros : ℕ) (retry : Bool)
      → KeepsValid (reschedule duration_seconds reminder_id worker e attempts micros retry)
  unfolding reschedule
  reschedule-Keeps reminder_id worker e attempts micros true =
      Keeps-then _ _ (backoff-Keeps e attempts micros) λ delay. Keeps-map_err IsValid sqlx _ (
        update_held-Keeps reminder_id worker _
          (λ now r h. retry_row-IsValid now (safe_category e) delay r h))
  reschedule-Keeps reminder_id worker e attempts micros false = Keeps-map_err IsValid sqlx _ (
      update_held-Keeps reminder_id worker _
        (λ now r h. failed_row-IsValid now (safe_category e) r h))

  settle-Keeps :
      (reminder_id : ℕ) (worker : String) (e : DeliveryError) (max_retries micros : ℕ)
      (o : Option ℕ)
      → KeepsValid (settle duration_seconds reminder_id worker e max_retries micros o)
  unfolding settle
  settle-Keeps reminder_id worker e max_retries micros none = Keeps-pure IsValid false
  settle-Keeps reminder_id worker e max_retries micros (some attempts) =
      Keeps-then _ _
        (reschedule-Keeps reminder_id worker e attempts micros (will_retry e attempts max_retries))
        λ _. Keeps-pure IsValid _

  schedule-Keeps :
      (reminder_id : ℕ) (worker : String) (e : DeliveryError) (max_retries early late : ℕ)
      → KeepsValid
          (schedule_retry_or_fail duration_seconds reminder_id worker e max_retries early late)
  unfolding schedule_retry_or_fail
  schedule-Keeps reminder_id worker e max_retries early late =
      Keeps-then _ _ (backoff-Keeps e 0 early) λ _.
        Keeps-then _ _ (Keeps-map_err IsValid sqlx _ (select_held-Keeps reminder_id worker))
          λ held. settle-Keeps reminder_id worker e max_retries late held

module _ (duration_seconds : ℤ → Option ℤ) (decrypt : List ℕ → Option (List ℕ))
    (decode : List ℕ → Option ChannelConfig)
    (deliver : ChannelConfig → Notification → Result DeliveryError (Unit {0})) where
  built-Keeps :
      (max_retries : ℕ) (r : Result DbError (Option (Notification × ℕ)))
      → KeepsValid (built duration_seconds decrypt decode deliver max_retries r)
  unfolding built
  built-Keeps max_retries (err e) = Keeps-pure IsValid _
  built-Keeps max_retries (ok none) = Keeps-pure IsValid _
  built-Keeps max_retries (ok (some (n, user_id))) =
      Keeps-then _ _ (Keeps-attempt IsValid _ (find_channel-Keeps user_id n.channel_type)) λ found.
        Keeps-pure IsValid (looked_up duration_seconds decrypt decode deliver max_retries n found)

  stored-Keeps :
      (worker : String) (claimed : ClaimedReminder) (early late : ℕ) (v : Verdict)
      → KeepsValid (stored duration_seconds decrypt decode deliver worker claimed early late v)
  unfolding stored
  stored-Keeps worker claimed early late delivered =
      Keeps-ignore IsValid _ (mark_sent-Keeps claimed.id worker)
  stored-Keeps worker claimed early late (undelivered e budget) =
      Keeps-ignore IsValid _ (schedule-Keeps duration_seconds claimed.id worker e budget early late)

  deliver_one-Keeps :
      (worker : String) (max_retries early late : ℕ) (claimed : ClaimedReminder)
      → KeepsValid (
          deliver_one duration_seconds decrypt decode deliver worker max_retries early late claimed)
  unfolding deliver_one
  deliver_one-Keeps worker max_retries early late claimed =
      Keeps-then _ _ (Keeps-attempt IsValid _ (build_notification-Keeps claimed)) λ notice.
        Keeps-then _ _ (built-Keeps max_retries notice)
          λ verdict. stored-Keeps worker claimed early late verdict

  deliver_all-Keeps :
      (worker : String) (max_retries early late : ℕ) (cs : List ClaimedReminder)
      → KeepsValid
          (deliver_all duration_seconds decrypt decode deliver worker max_retries early late cs)
  unfolding deliver_all
  deliver_all-Keeps worker max_retries early late [] = Keeps-pure IsValid tt
  deliver_all-Keeps worker max_retries early late (c ∷ cs) =
      Keeps-then _ _ (deliver_one-Keeps worker max_retries early late c)
        λ _. deliver_all-Keeps worker max_retries early late cs

  dispatch-Keeps :
      (worker : String) (max_retries early late : ℕ) (r : Result DbError (List ClaimedReminder))
      → KeepsValid
          (dispatch duration_seconds decrypt decode deliver worker max_retries early late r)
  unfolding dispatch
  dispatch-Keeps worker max_retries early late (err e) = Keeps-pure IsValid tt
  dispatch-Keeps worker max_retries early late (ok cs) =
      deliver_all-Keeps worker max_retries early late cs

  pub tick-Keeps :
      (worker : String) (timeout n max_retries : ℕ) (locked : ℕ → Bool) (early late : ℕ)
      → KeepsValid (
          tick duration_seconds decrypt decode deliver worker timeout n max_retries locked early
            late)
  unfolding tick
  tick-Keeps worker timeout n max_retries locked early late =
      Keeps-then _ _ (Keeps-ignore IsValid _ (recover_stale_processing-Keeps timeout)) λ _.
        Keeps-then _ _
          (Keeps-ignore IsValid _ (recover_stale_pending_analyses-Keeps analysis_stale_secs))
          λ _.
            Keeps-then _ _ (Keeps-attempt IsValid _ (claim_due-Keeps locked worker n))
              λ claimed. dispatch-Keeps worker max_retries early late claimed
