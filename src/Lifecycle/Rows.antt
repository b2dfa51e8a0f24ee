-- ===== src/Lifecycle/Rows.antt =====
-- Inserts, updates and deletes that keep a property of every row.
use legaltech_contract_autom.Common.{
  Bool, true, ◌≡◌, List, [], ◌∷◌, ◌++◌, All, All-append, Bool-cases, inl, inr,
}
use legaltech_contract_autom.Db.Models.{Reminder, Contract}
use legaltech_contract_autom.Db.Reminders.{update_where}
use legaltech_contract_autom.Db.Contracts.{update_contracts}

pub All-update_where :
    (P : Reminder → Type 0) (test : Reminder → Bool) (change : Reminder → Reminder)
    (rows : List Reminder)
    → ((r : Reminder) → P r → test r ≡ true → P (change r))
    → All P rows
    → All P (update_where test change rows)
All-update_where P test change [] keep h = tt
All-update_where P test change (r ∷ rows) keep h = elim (Bool-cases (test r)) [
  | inl e ↦ rw e (keep r h.0 e, All-update_where P test change rows keep h.1)
  | inr e ↦ rw e (h.0, All-update_where P test change rows keep h.1)
]

pub All-update_contracts :
    (P : Contract → Type 0) (test : Contract → Bool) (change : Contract → Contract)
    (rows : List Contract)
    → ((c : Contract) → P c → test c ≡ true → P (change c))
    → All P rows
    → All P (update_contracts test change rows)
All-update_contracts P test change [] keep h = tt
All-update_contracts P test change (c ∷ rows) keep h = elim (Bool-cases (test c)) [
  | inl e ↦ rw e (keep c h.0 e, All-update_contracts P test change rows keep h.1)
  | inr e ↦ rw e (h.0, All-update_contracts P test change rows keep h.1)
]

pub All-concat {ℓ κ} :
    {A : Type ℓ} (P : A → Type κ) (xs : List A) (x : A) → All P xs → P x → All P (xs ++ x ∷ [])
All-concat P xs x h p = All-append P xs (x ∷ []) h (p, tt)
