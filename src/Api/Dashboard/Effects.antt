-- ===== src/Api/Dashboard/Effects.antt =====
-- The summary of src/api/dashboard.rs after the worker of src/worker/outcome.rs has delivered.
use text.Mathlib.Text.{◌==◌ as str_eq}
use legaltech_contract_autom.Common.{
  ℕ, ◌+◌, ◌≤◌, ◌/◌, ◌≡◌, refl, ap, String, Bool, true, false, not, ◌&&◌, count, inl, inr,
  Bool-cases, List, [], ◌∷◌, Option, some, none, ok, arith, ltb,
}
use legaltech_contract_autom.Reminders.Types.{ReminderStatus, sent, pending, failed, processing}
use legaltech_contract_autom.Db.Models.{Reminder, ContractObligation}
use legaltech_contract_autom.Db.Session.{World, seen, clock}
use legaltech_contract_autom.Db.Inversion.{statement-ok}
use legaltech_contract_autom.Db.Reminders.{update_where}
use legaltech_contract_autom.Db.Dashboard.{dashboard_counts, has_status, belongs, is_overdue}
use legaltech_contract_autom.Worker.Outcome.{is_held, sent_row, mark_sent}
use legaltech_contract_autom.Worker.Outcome.Held.{is_held-IsHeldBy}
use legaltech_contract_autom.Api.Dashboard.{summary_of}

module _ (id : ℕ) (worker : String) (now : ℕ) (mine : ℕ → Bool) where
  abbrev marked : List Reminder → List Reminder
  marked rows = update_where (is_held id worker) (sent_row now) rows

  count_sent :
      (rows : List Reminder)
      → count (λ r. mine r.contract_id && has_status sent r.status) (marked rows)
        ≡ count (λ r. mine r.contract_id && has_status sent r.status) rows
          + count (λ r. mine r.contract_id && is_held id worker r) rows
  unfolding sent_row
  count_sent [] = omega arith
  count_sent (r ∷ rows) = elim (Bool-cases (is_held id worker r)) [
    | inl e ↦
        let status = (is_held-IsHeldBy id worker r e).in_processing in
        let ih = count_sent rows in rw (e, status) (ground arith)
    | inr e ↦ let ih = count_sent rows in rw (e) (ground arith)
  ]

  -- The counts of the other two statuses.
  count_same :
      (status : ReminderStatus) (rows : List Reminder)
      → has_status status sent ≡ false
      → has_status status processing ≡ false
      → count (λ r. mine r.contract_id && has_status status r.status) (marked rows)
        ≡ count (λ r. mine r.contract_id && has_status status r.status) rows
  unfolding sent_row
  count_same status [] h k = refl
  count_same status (r ∷ rows) h k = elim (Bool-cases (is_held id worker r)) [
    | inl e ↦
        let was = (is_held-IsHeldBy id worker r e).in_processing in
        let ih = count_same status rows h k in rw (e, was) (ground arith)
    | inr e ↦ let ih = count_same status rows h k in rw (e) (ground arith)
  ]

-- What is overdue stays so.
overdue_later :
    (now then : ℕ) (due : Option ℕ) (left : Bool)
    → now ≤ then
    → (elim due [ none ↦ false | some day ↦ ltb day (now / 86_400_000_000) ] && left) ≡ true
    → (elim due [ none ↦ false | some day ↦ ltb day (then / 86_400_000_000) ] && left) ≡ true
overdue_later now then none left h e = absurd (cc)
overdue_later now then (some day) left h e =
    let later : now / 86_400_000_000 ≤ then / 86_400_000_000 = omega arith in ground arith

overdue_le :
    (now then : ℕ) (mine : ℕ → Bool) (os : List ContractObligation)
    → now ≤ then
    → count (λ o. mine o.contract_id && is_overdue now o) os
      ≤ count (λ o. mine o.contract_id && is_overdue then o) os
overdue_le now then mine [] h = omega arith
overdue_le now then mine (o ∷ os) h =
    let ih = overdue_le now then mine os h in
    elim (Bool-cases (is_overdue now o)) [
      | inl e ↦
          rw (e, overdue_later now then o.due_date (not (str_eq o.status "completed")) h e)
            (ground arith)
      | inr e ↦ rw e (ground arith)
    ]

-- A delivery that the worker records moves the held reminders of a user from none of the shown
-- statuses to the sent ones, whenever the user looks: the sent reminders are as many more, the
-- pending and the failed ones are as many as before, and the same contracts and channels are counted.
-- What was overdue at an earlier look is still counted as overdue.
pub mark_sent-summary :
    (reminder_id user_id now then : ℕ) (worker_id : String) (won : Bool) (w w' : World)
    → mark_sent reminder_id worker_id w ≡ (ok won, w')
    → now ≤ then
    → ((summary_of (dashboard_counts user_id then w'.db)).reminders.sent
        ≡ (summary_of (dashboard_counts user_id now (seen w))).reminders.sent
          + count
              (λ r. belongs user_id (seen w) r.contract_id && is_held reminder_id worker_id r)
              (seen w).reminders)
      × ((summary_of (dashboard_counts user_id then w'.db)).reminders.pending
          ≡ (summary_of (dashboard_counts user_id now (seen w))).reminders.pending)
      × ((summary_of (dashboard_counts user_id then w'.db)).reminders.failed
          ≡ (summary_of (dashboard_counts user_id now (seen w))).reminders.failed)
      × ((summary_of (dashboard_counts user_id then w'.db)).contracts
          ≡ (summary_of (dashboard_counts user_id now (seen w))).contracts)
      × ((summary_of (dashboard_counts user_id then w'.db)).channels
          ≡ (summary_of (dashboard_counts user_id now (seen w))).channels)
      × ((summary_of (dashboard_counts user_id now (seen w))).obligations.overdue
          ≤ (summary_of (dashboard_counts user_id then w'.db)).obligations.overdue)
unfolding mark_sent summary_of dashboard_counts
mark_sent-summary reminder_id user_id now then worker_id won w w' h past =
    let (answer, moved) = statement-ok _ w h in
    let table = ap (λ (x : World). x.db) moved in
    let mine : ℕ → Bool = belongs user_id (seen w) in
    rw table (
      count_sent reminder_id worker_id (clock w) mine (seen w).reminders,
      count_same reminder_id worker_id (clock w) mine pending (seen w).reminders refl refl,
      count_same reminder_id worker_id (clock w) mine failed (seen w).reminders refl refl,
      refl,
      refl,
      overdue_le now then mine (seen w).obligations past,
    )
