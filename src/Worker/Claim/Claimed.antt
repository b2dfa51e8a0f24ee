-- ===== src/Worker/Claim/Claimed.antt =====
-- What one claim of src/worker/claim.rs returns, and what it marks.
use legaltech_contract_autom.Common.{
  ℕ, ◌≤◌, String, Bool, true, not, ◌&&◌, ◌≡◌, refl, List, All, length, map, ok,
}
use legaltech_contract_autom.Db.Models.{Reminder}
use legaltech_contract_autom.Db.Session.{World, seen}
use legaltech_contract_autom.Worker.Claim.{
  ClaimedReminder, is_due, drains_before, select_due, to_claimed, claim_rows, claim_due,
}
use legaltech_contract_autom.Worker.Claim.Selection.{
  select_due-All, passed_over, select_due-first, length-select_due,
}
use legaltech_contract_autom.Worker.Claim.Exclusion.{claim_due-ok, now_of}

-- A claim that succeeds returns rows that are due and that no other transaction holds, at most as
-- many as the batch size; none of the due rows that it passes over comes before one of them in the
-- order of date and id; and the table differs only in that the returned rows are marked as claimed.
pub claim_due_lem :
    (locked : ℕ → Bool) (worker : String) (n : ℕ) (w w' : World) (xs : List ClaimedReminder)
    → claim_due locked worker n w ≡ (ok xs, w')
    → (rows : List Reminder) × (rows ≡ select_due (now_of w) locked n (seen w).reminders)
      × (xs ≡ map to_claimed rows)
      × (length rows ≤ n)
      × All (λ r. (is_due (now_of w) r && not (locked r.id)) ≡ true) rows
      × All
          (λ r.
            All
              (λ s. drains_before r s ≡ true)
              (passed_over (now_of w) locked n (seen w).reminders))
          rows
      × (w'.db.reminders ≡ claim_rows (now_of w) worker xs (seen w).reminders)
claim_due_lem locked worker n w w' xs h =
    let (chosen, marked) = claim_due-ok locked worker n w h in
    let now = now_of w in
    let table = (seen w).reminders in
    (
      select_due now locked n table,
      refl,
      chosen,
      length-select_due now locked n table,
      select_due-All now locked n table,
      select_due-first now locked n table,
      marked,
    )
