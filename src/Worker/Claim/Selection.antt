-- ===== src/Worker/Claim/Selection.antt =====
-- Which rows src/worker/claim.rs selects, and in which order.
use legaltech_contract_autom.Common.{
  ℕ, ◌≤◌, Bool, true, false, not, ◌&&◌, ◌≡◌, List, All, All-take, filter_passes, All-sort_by,
  IsSorted-sort_by, take-before-drop, length, drop, sort_by, length-take-le, arith,
}
use legaltech_contract_autom.Db.Models.{Reminder}
use legaltech_contract_autom.Worker.Claim.{is_due, drains_before, candidates, select_due}

drains_before_total : (r s : Reminder) → drains_before r s ≡ false → drains_before s r ≡ true
unfolding drains_before
drains_before_total r s h = ground arith

drains_before_trans :
    (r s t : Reminder)
    → drains_before r s ≡ true
    → drains_before s t ≡ true
    → drains_before r t ≡ true
unfolding drains_before
drains_before_trans r s t h k = ground arith

pub select_due-All :
    (now : ℕ) (locked : ℕ → Bool) (n : ℕ) (rows : List Reminder)
    → All (λ r. (is_due now r && not (locked r.id)) ≡ true) (select_due now locked n rows)
unfolding select_due candidates
select_due-All now locked n rows =
    All-take _ n _ (All-sort_by _ drains_before _ (filter_passes _ rows))

-- The rows that a claim leaves behind, in its order.
pub passed_over : ℕ → (ℕ → Bool) → ℕ → List Reminder → List Reminder
unfolding candidates
passed_over now locked n rows = drop n (sort_by drains_before (candidates now locked rows))

pub select_due-first :
    (now : ℕ) (locked : ℕ → Bool) (n : ℕ) (rows : List Reminder)
    → All
        (λ r. All (λ s. drains_before r s ≡ true) (passed_over now locked n rows))
        (select_due now locked n rows)
unfolding select_due passed_over
select_due-first now locked n rows = take-before-drop drains_before n _ (
    IsSorted-sort_by drains_before drains_before_total drains_before_trans
      (candidates now locked rows))

pub length-select_due :
    (now : ℕ) (locked : ℕ → Bool) (n : ℕ) (rows : List Reminder)
    → length (select_due now locked n rows) ≤ n
unfolding select_due
length-select_due now locked n rows = length-take-le n _
