-- ===== src/Worker/Claim/Exclusion.antt =====
-- Two claims of src/worker/claim.rs never return the same reminder.
use mathlib.Core.Logic.{inl, inr}
use legaltech_contract_autom.Common.{
  ℕ, String, Bool, true, false, not, ◌&&◌, ◌≡◌, refl, ap, ◌==◌, List, [], ◌∷◌, All, All-map_pred₂,
  All-filter, All-take, All-sort_by, filter_passes, any, map, arith, ok, Bool-cases, some,
}
use legaltech_contract_autom.Db.Models.{Reminder}
use legaltech_contract_autom.Db.Session.{World, seen, start}
use legaltech_contract_autom.Db.Transactions.{transaction-ok}
use legaltech_contract_autom.Db.Inversion.{after-ok, statement-ok}
use legaltech_contract_autom.Db.Reminders.{is_pending}
use legaltech_contract_autom.Worker.Claim.{
  ClaimedReminder, is_due, is_among, drains_before, candidates, select_due, to_claimed, claim_rows,
  claim_selected, claim_due,
}

-- NOW() of the transaction that starts here.
abbrev pub now_of : World → ℕ
now_of w = (w.turns w.tick).now

claim_rows-nil :
    (now : ℕ) (worker : String) (rows : List Reminder) → claim_rows now worker [] rows ≡ rows
unfolding claim_rows
claim_rows-nil now worker [] = refl
claim_rows-nil now worker (r ∷ rows) = ap (λ rs. r ∷ rs) (claim_rows-nil now worker rows)

-- The second statement of the transaction, which started at `at`.
claim_selected-ok :
    (worker : String) (cs : List ClaimedReminder) (v : World) (at : ℕ) {v' : World}
    {xs : List ClaimedReminder}
    → v.tx ≡ some at
    → claim_selected worker cs v ≡ (ok xs, v')
    → (xs ≡ cs) × (v'.db.reminders ≡ claim_rows at worker cs v.db.reminders)
unfolding claim_selected
claim_selected-ok worker [] v at open_tx h =
    (ground arith, cc (claim_rows-nil at worker v.db.reminders))
claim_selected-ok worker (c ∷ cs) v at open_tx h =
    let (_, u, sent, rest) = after-ok _ _ h in ground (arith, (statement-ok _ v sent).1)

-- A claim that succeeds returns the selected rows, and marks exactly those.
pub claim_due-ok :
    (locked : ℕ → Bool) (worker : String) (n : ℕ) (w : World) {w' : World}
    {xs : List ClaimedReminder}
    → claim_due locked worker n w ≡ (ok xs, w')
    → (xs ≡ map to_claimed (select_due (now_of w) locked n (seen w).reminders))
      × (w'.db.reminders ≡ claim_rows (now_of w) worker xs (seen w).reminders)
unfolding claim_due
claim_due-ok locked worker n w h =
    let (v, ran, kept) = transaction-ok _ _ w h in
    let (cs, u, selected, rest) = after-ok _ _ ran in
    let (chosen, moved) = statement-ok _ (start w) selected in
    let (same, marked) = claim_selected-ok worker cs u (now_of w) (ground arith) rest in
    (ground arith, ground arith)

-- What is among the claimed is no longer pending.
abbrev IsTaken : List ClaimedReminder → Reminder → Type 0
IsTaken xs r = is_among xs r ≡ true → is_pending r.status ≡ false

claim_rows-IsTaken :
    (now : ℕ) (worker : String) (xs : List ClaimedReminder) (rows : List Reminder)
    → All (IsTaken xs) (claim_rows now worker xs rows)
unfolding claim_rows
claim_rows-IsTaken now worker xs [] = tt
claim_rows-IsTaken now worker xs (r ∷ rows) = elim (Bool-cases (is_among xs r)) [
  | inl e ↦ rw e ((λ _. refl), claim_rows-IsTaken now worker xs rows)
  | inr e ↦ rw e ((λ h. absurd (cc)), claim_rows-IsTaken now worker xs rows)
]

select_due-not_among :
    (now : ℕ) (locked : ℕ → Bool) (n : ℕ) (xs : List ClaimedReminder) (rows : List Reminder)
    → All (IsTaken xs) rows
    → All (λ r. is_among xs r ≡ false) (select_due now locked n rows)
unfolding select_due candidates is_due
select_due-not_among now locked n xs rows h = All-take _ n _ (
    All-sort_by _ drains_before _ (
      All-map_pred₂ _ (λ r. (is_due now r && not (locked r.id)) ≡ true) _ _
        (λ r taken due. elim (Bool-cases (is_among xs r)) [
          | inl e ↦ absurd (ground (arith, taken e))
          | inr e ↦ e
        ])
        (All-filter (IsTaken xs) _ rows h) (filter_passes _ rows)))

All-to_claimed :
    (xs : List ClaimedReminder) (rows : List Reminder)
    → All (λ r. is_among xs r ≡ false) rows
    → All (λ (y : ClaimedReminder). any (λ c. c.id == y.id) xs ≡ false) (map to_claimed rows)
unfolding to_claimed
All-to_claimed xs [] h = tt
All-to_claimed xs (r ∷ rows) h = (h.0, All-to_claimed xs rows h.1)

-- Two claims that succeed one after the other, the second on the tables that the first left, by
-- whichever workers, at whichever times, batch sizes and locks, return no reminder id in common.
pub claim_due_disjoint :
    (locked locked' : ℕ → Bool) (worker worker' : String) (n m : ℕ) (w v w' v' : World)
    (xs ys : List ClaimedReminder)
    → claim_due locked worker n w ≡ (ok xs, w')
    → (seen v).reminders ≡ w'.db.reminders
    → claim_due locked' worker' m v ≡ (ok ys, v')
    → All (λ (y : ClaimedReminder). any (λ c. c.id == y.id) xs ≡ false) ys
claim_due_disjoint locked locked' worker worker' n m w v w' v' xs ys first left second =
    let (_, marked) = claim_due-ok locked worker n w first in
    let (chosen, _) = claim_due-ok locked' worker' m v second in
    let taken : All (IsTaken xs) (seen v).reminders =
      rw (left, marked) (claim_rows-IsTaken (now_of w) worker xs (seen w).reminders) in
    rw chosen
      (All-to_claimed xs _ (select_due-not_among (now_of v) locked' m xs (seen v).reminders taken))
