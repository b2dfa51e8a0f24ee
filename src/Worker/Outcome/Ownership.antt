-- ===== src/Worker/Outcome/Ownership.antt =====
-- An outcome of src/worker/outcome.rs touches only the row that the worker holds.
use mathlib.Core.Path.{subst}
use legaltech_contract_autom.Common.{
  ℕ, ◌+◌, String, Bool, true, false, ◌≡◌, refl, sym, ap, ◌∙◌, ◌⊎◌, inl, inr, Bool-cases, List, [],
  ◌∷◌, any, All, arith, ok, some, none,
}
use legaltech_contract_autom.Reminders.Types.{sent}
use legaltech_contract_autom.Db.Models.{Reminder}
use legaltech_contract_autom.Db.Session.{World, seen, clock}
use legaltech_contract_autom.Db.Inversion.{statement-ok}
use legaltech_contract_autom.Db.Reminders.{update_where}
use legaltech_contract_autom.Worker.Outcome.{is_held, sent_row, mark_sent}
use legaltech_contract_autom.Worker.Outcome.Held.{
  IsHeldBy, Updates, Somewhere, update_where-Updates, any-Somewhere, any-nowhere,
}

-- An update whose test holds nowhere changes nothing.
pub update_where-none :
    (test : Reminder → Bool) (change : Reminder → Reminder) (rows : List Reminder)
    → any test rows ≡ false
    → update_where test change rows ≡ rows
update_where-none test change [] h = refl
update_where-none test change (r ∷ rows) h = ground (arith, update_where-none test change rows)

-- The row of a delivered reminder.
abbrev pub BecomesSent : (now : ℕ) → Reminder → Reminder → Type 0
BecomesSent now r s = s ≡ record r {
  status = sent;
  sent_at = some now;
  last_error = none;
  attempts = r.attempts + 1;
  claimed_at = none;
  claimed_by = none;
  updated_at = now;
}

-- A mark that returns: if it answers `true`, there is a row under the id that is in processing and
-- claimed by this worker, each such row has become sent with one more attempt and no claim, and
-- every other row is what it was; if it answers `false`, there is no such row and the table is what
-- it was.
pub mark_sent_lem :
    (reminder_id : ℕ) (worker_id : String) (won : Bool) (w w' : World)
    → mark_sent reminder_id worker_id w ≡ (ok won, w')
    → ((won ≡ true)
        × Somewhere (IsHeldBy reminder_id worker_id) (seen w).reminders
        × Updates
            (IsHeldBy reminder_id worker_id)
            (BecomesSent (clock w))
            (seen w).reminders
            w'.db.reminders)
      ⊎ ((won ≡ false)
          × All (λ r. IsHeldBy reminder_id worker_id r → ⊥) (seen w).reminders
          × (w'.db.reminders ≡ (seen w).reminders))
unfolding mark_sent sent_row
mark_sent_lem reminder_id worker_id won w w' h =
    let (answer, moved) = statement-ok _ w h in
    let rows = (seen w).reminders in
    let table = ap (λ (x : World). x.db.reminders) moved in
    elim (Bool-cases won) [
      | inl e ↦ inl (
        e,
        any-Somewhere reminder_id worker_id rows (sym answer ∙ e),
        subst (Updates (IsHeldBy reminder_id worker_id) (BecomesSent (clock w)) rows) (sym table)
            (update_where-Updates reminder_id worker_id (sent_row (clock w)) rows),
      )
      | inr e ↦ inr (
        e,
        any-nowhere reminder_id worker_id rows (sym answer ∙ e),
        table
            ∙ update_where-none (is_held reminder_id worker_id) (sent_row (clock w)) rows
                (sym answer ∙ e),
      )
    ]
