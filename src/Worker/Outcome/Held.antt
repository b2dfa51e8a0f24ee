-- ===== src/Worker/Outcome/Held.antt =====
-- The rows that a worker holds, and what an UPDATE on them does to a table, row by row.
use text.Mathlib.TextEquality.{eq_iff}
use legaltech_contract_autom.Common.{
  ℕ, String, true, false, ◌≡◌, refl, ap, Option, some, none, ◌⊎◌, inl, inr, Bool-cases, List, [],
  ◌∷◌, any, All, arith,
}
use legaltech_contract_autom.Reminders.Types.{
  ReminderStatus, pending, processing, sent, failed, cancelled,
}
use legaltech_contract_autom.Db.Models.{Reminder}
use legaltech_contract_autom.Db.Reminders.{update_where, is_processing}
use legaltech_contract_autom.Worker.Outcome.{is_held, is_claimed_by}

-- A reminder under this id, in processing, that this worker has claimed.
pub record IsHeldBy (reminder_id : ℕ) (worker_id : String) (r : Reminder) : Type 0 where
  pub same_id : r.id ≡ reminder_id
  pub in_processing : r.status ≡ processing
  pub claimed : r.claimed_by ≡ some worker_id

processing_of : (s : ReminderStatus) → is_processing s ≡ true → s ≡ processing
processing_of pending h = absurd (cc)
processing_of processing h = refl
processing_of sent h = absurd (cc)
processing_of failed h = absurd (cc)
processing_of cancelled h = absurd (cc)

claimed_of : (worker : String) (o : Option String) → is_claimed_by worker o ≡ true → o ≡ some worker
claimed_of worker none h = absurd (cc)
claimed_of worker (some holder) h = ap some ((eq_iff holder worker).0 h)

-- The test of the SQL text is that predicate.
pub is_held-IsHeldBy :
    (id : ℕ) (worker : String) (r : Reminder) → is_held id worker r ≡ true → IsHeldBy id worker r
unfolding is_held
is_held-IsHeldBy id worker r h = record {
  same_id = ground arith;
  in_processing = processing_of r.status (ground arith);
  claimed = claimed_of worker r.claimed_by (ground arith);
}

pub IsHeldBy-is_held :
    (id : ℕ) (worker : String) (r : Reminder) → IsHeldBy id worker r → is_held id worker r ≡ true
unfolding is_held
IsHeldBy-is_held id worker r h =
    let self : is_claimed_by worker (some worker) ≡ true = (eq_iff worker worker).1 refl in
    rw (h.same_id, h.in_processing, h.claimed, self) (ground arith)

pub not_held :
    (id : ℕ) (worker : String) (r : Reminder)
    → is_held id worker r ≡ false
    → IsHeldBy id worker r
    → ⊥
not_held id worker r h held = let e = IsHeldBy-is_held id worker r held in absurd (cc)

-- Row by row: a held row has become another, and every other row is what it was.
module _ (Held : Reminder → Type 0) (Becomes : Reminder → Reminder → Type 0) where
  abbrev pub Updates : List Reminder → List Reminder → Type 0
  Updates [] [] = Unit
  Updates [] (_ ∷ _) = ⊥
  Updates (_ ∷ _) [] = ⊥
  Updates (r ∷ rs) (s ∷ ss) = ((Held r × Becomes r s) ⊎ ((Held r → ⊥) × (s ≡ r))) × Updates rs ss

-- Some row is held.
abbrev pub Somewhere : (Reminder → Type 0) → List Reminder → Type 0
Somewhere Held [] = ⊥
Somewhere Held (r ∷ rs) = Held r ⊎ Somewhere Held rs

module _ (id : ℕ) (worker : String) where
  pub update_where-Updates :
      (change : Reminder → Reminder) (rows : List Reminder)
      → Updates
          (IsHeldBy id worker)
          (λ r s. s ≡ change r)
          rows
          (update_where (is_held id worker) change rows)
  update_where-Updates change [] = tt
  update_where-Updates change (r ∷ rows) = elim (Bool-cases (is_held id worker r)) [
    | inl e ↦ rw e (inl (is_held-IsHeldBy id worker r e, refl), update_where-Updates change rows)
    | inr e ↦ rw e (inr (not_held id worker r e, refl), update_where-Updates change rows)
  ]

  pub any-Somewhere :
      (rows : List Reminder)
      → any (is_held id worker) rows ≡ true
      → Somewhere (IsHeldBy id worker) rows
  any-Somewhere [] h = absurd (cc)
  any-Somewhere (r ∷ rows) h = elim (Bool-cases (is_held id worker r)) [
    | inl e ↦ inl (is_held-IsHeldBy id worker r e)
    | inr e ↦ inr (any-Somewhere rows (rw e at h))
  ]

  pub any-nowhere :
      (rows : List Reminder)
      → any (is_held id worker) rows ≡ false
      → All (λ r. IsHeldBy id worker r → ⊥) rows
  any-nowhere [] h = tt
  any-nowhere (r ∷ rows) h = elim (Bool-cases (is_held id worker r)) [
    | inl e ↦ absurd (ground arith)
    | inr e ↦ (not_held id worker r e, any-nowhere rows (rw e at h))
  ]
