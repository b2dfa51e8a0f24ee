-- ===== src/Lifecycle/Reminders.antt =====
-- The statements on `reminders` (src/db/reminders.rs, src/worker/) keep every row valid.
use legaltech_contract_autom.Common.{
  ℕ, ℤ, String, true, false, ◌≡◌, refl, ◌∙◌, Option, List, All, All-filter, any, arith, Bool-cases,
  inl, inr,
}
use legaltech_contract_autom.Reminders.Types.{ReminderSource, ReminderStatus}
use legaltech_contract_autom.Db.Models.{Reminder}
use legaltech_contract_autom.Db.Session.{Db}
use legaltech_contract_autom.Db.Preservation.{Keeps, Keeps-statement}
use legaltech_contract_autom.Db.Reminders.{
  is_pending, is_processing, is_cancellable, delete_pending_system_reminders,
  delete_pending_system_rows, conflicts, insert_system_row, new_reminder, insert_system_reminder,
  insert_custom_reminder, cancel_row, cancel_reminder_for_user,
}
use legaltech_contract_autom.Worker.Claim.{claim_row}
use legaltech_contract_autom.Worker.Outcome.{
  sent_row, retry_row, failed_row, mark_sent, select_held, update_held,
}
use legaltech_contract_autom.Worker.Recovery.{recovered_row, recover_stale_processing}
use legaltech_contract_autom.Lifecycle.{ReminderIsValid, IsValid}
use legaltech_contract_autom.Lifecycle.Rows.{All-update_where, All-concat}

-- Each change of a row keeps it valid.
pub claim_row-IsValid :
    (now : ℕ) (worker : String) (r : Reminder)
    → ReminderIsValid r
    → ReminderIsValid (claim_row now worker r)
unfolding claim_row
claim_row-IsValid now worker r v = record {
  claim_time = refl;
  claim_holder = refl;
  sent_time = refl;
  failure = refl;
}

sent_row-IsValid : (now : ℕ) (r : Reminder) → ReminderIsValid r → ReminderIsValid (sent_row now r)
unfolding sent_row
sent_row-IsValid now r v = record {
  claim_time = refl;
  claim_holder = refl;
  sent_time = refl;
  failure = refl;
}

pub retry_row-IsValid :
    (now : ℕ) (category : String) (delay : ℤ) (r : Reminder)
    → ReminderIsValid r
    → ReminderIsValid (retry_row now category delay r)
unfolding retry_row
retry_row-IsValid now category delay r v = record {
  claim_time = refl;
  claim_holder = refl;
  sent_time = refl;
  failure = refl;
}

pub failed_row-IsValid :
    (now : ℕ) (category : String) (r : Reminder)
    → ReminderIsValid r
    → ReminderIsValid (failed_row now category r)
unfolding failed_row
failed_row-IsValid now category r v = record {
  claim_time = refl;
  claim_holder = refl;
  sent_time = refl;
  failure = refl;
}

recovered_row-IsValid :
    (now : ℕ) (r : Reminder) → ReminderIsValid r → ReminderIsValid (recovered_row now r)
unfolding recovered_row
recovered_row-IsValid now r v = record {
  claim_time = refl;
  claim_holder = refl;
  sent_time = refl;
  failure = refl;
}

-- Only a pending reminder is cancelled, so no claim is left on it.
pending_not_processing : (s : ReminderStatus) → is_pending s ≡ true → is_processing s ≡ false
pending_not_processing s h = ground arith

cancel_row-IsValid :
    (now : ℕ) (r : Reminder)
    → ReminderIsValid r
    → is_pending r.status ≡ true
    → ReminderIsValid (cancel_row now r)
unfolding cancel_row
cancel_row-IsValid now r v h =
    let idle = pending_not_processing r.status h in
    record {
      claim_time = v.claim_time ∙ idle;
      claim_holder = v.claim_holder ∙ idle;
      sent_time = refl;
      failure = refl;
    }

new_reminder-IsValid :
    (now fresh contract_id : ℕ) (obligation_id : Option ℕ) (date : ℕ) (kind channel : String)
    (source : ReminderSource) (version : Option ℕ)
    → ReminderIsValid
        (new_reminder now fresh contract_id obligation_id date kind channel source version)
unfolding new_reminder
new_reminder-IsValid now fresh contract_id obligation_id date kind channel source version = record {
  claim_time = refl;
  claim_holder = refl;
  sent_time = refl;
  failure = refl;
}

-- Each statement keeps the tables valid.
abbrev pub KeepsValid : {E A : Type 0} → Db E A → Type 0
KeepsValid m = Keeps IsValid m

pub update_held-Keeps :
    (reminder_id : ℕ) (worker : String) (change : ℕ → Reminder → Reminder)
    → ((now : ℕ) (r : Reminder) → ReminderIsValid r → ReminderIsValid (change now r))
    → KeepsValid (update_held reminder_id worker change)
unfolding update_held
update_held-Keeps reminder_id worker change keep = Keeps-statement IsValid _ λ now fresh db v.
    record {
      reminders =
          All-update_where ReminderIsValid _ (change now) _ (λ r h e. keep now r h) v.reminders;
      contracts = v.contracts;
    }

pub mark_sent-Keeps :
    (reminder_id : ℕ) (worker : String) → KeepsValid (mark_sent reminder_id worker)
unfolding mark_sent
mark_sent-Keeps reminder_id worker = Keeps-statement IsValid _ λ now fresh db v. record {
  reminders =
      All-update_where ReminderIsValid _ (sent_row now) _ (λ r h e. sent_row-IsValid now r h)
        v.reminders;
  contracts = v.contracts;
}

pub select_held-Keeps :
    (reminder_id : ℕ) (worker : String) → KeepsValid (select_held reminder_id worker)
unfolding select_held
select_held-Keeps reminder_id worker = Keeps-statement IsValid _ (λ now fresh db v. v)

pub recover_stale_processing-Keeps : (timeout : ℕ) → KeepsValid (recover_stale_processing timeout)
unfolding recover_stale_processing
recover_stale_processing-Keeps timeout = Keeps-statement IsValid _ λ now fresh db v. record {
  reminders =
      All-update_where ReminderIsValid _ (recovered_row now) _
        (λ r h e. recovered_row-IsValid now r h) v.reminders;
  contracts = v.contracts;
}

pub delete_pending_system_reminders-Keeps :
    (contract_id : ℕ) → KeepsValid (delete_pending_system_reminders contract_id)
unfolding delete_pending_system_reminders delete_pending_system_rows
delete_pending_system_reminders-Keeps contract_id = Keeps-statement IsValid _ λ now fresh db v.
    record { reminders = All-filter ReminderIsValid _ _ v.reminders; contracts = v.contracts }

insert_system_row-All :
    (r : Reminder) (rows : List Reminder)
    → ReminderIsValid r
    → All ReminderIsValid rows
    → All ReminderIsValid (insert_system_row r rows).1
unfolding insert_system_row
insert_system_row-All r rows v h = elim (Bool-cases (any (conflicts r) rows)) [
  | inl e ↦ rw e h
  | inr e ↦ rw e (All-concat ReminderIsValid rows r h v)
]

pub insert_system_reminder-Keeps :
    (contract_id : ℕ) (obligation_id : Option ℕ) (date : ℕ) (kind channel : String) (version : ℕ)
    → KeepsValid (insert_system_reminder contract_id obligation_id date kind channel version)
unfolding insert_system_reminder
insert_system_reminder-Keeps contract_id obligation_id date kind channel version =
    Keeps-statement IsValid _ λ now fresh db v. record {
      reminders =
          insert_system_row-All _ _
            (new_reminder-IsValid now fresh contract_id obligation_id date kind channel _ _)
            v.reminders;
      contracts = v.contracts;
    }

pub insert_custom_reminder-Keeps :
    (contract_id : ℕ) (obligation_id : Option ℕ) (date : ℕ) (channel : String)
    → KeepsValid (insert_custom_reminder contract_id obligation_id date channel)
unfolding insert_custom_reminder
insert_custom_reminder-Keeps contract_id obligation_id date channel =
    Keeps-statement IsValid _ λ now fresh db v. record {
      reminders =
          All-concat ReminderIsValid db.reminders _ v.reminders
            (new_reminder-IsValid now fresh contract_id obligation_id date "custom" channel _ _);
      contracts = v.contracts;
    }

pub cancel_reminder_for_user-Keeps :
    (reminder_id user_id : ℕ) → KeepsValid (cancel_reminder_for_user reminder_id user_id)
unfolding cancel_reminder_for_user is_cancellable
cancel_reminder_for_user-Keeps reminder_id user_id = Keeps-statement IsValid _ λ now fresh db v.
    record {
      reminders =
          All-update_where ReminderIsValid _ (cancel_row now) _
            (λ r h e. cancel_row-IsValid now r h (ground arith)) v.reminders;
      contracts = v.contracts;
    }
