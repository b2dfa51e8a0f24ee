-- ===== src/Worker/Recovery/Recovered.antt =====
-- What a recovery of src/worker/recovery.rs leaves behind.
use legaltech_contract_autom.Common.{
  ℕ, ◌+◌, Bool, true, false, ◌≡◌, refl, List, [], ◌∷◌, All, count, ok, Bool-cases, inl, inr, arith,
}
use legaltech_contract_autom.Db.Models.{Reminder}
use legaltech_contract_autom.Db.Session.{World, seen, clock}
use legaltech_contract_autom.Db.Inversion.{statement-ok}
use legaltech_contract_autom.Db.Reminders.{is_pending, update_where}
use legaltech_contract_autom.Worker.Recovery.{is_stale, recovered_row, recover_stale_processing}

abbrev pub is_pending_row : Reminder → Bool
is_pending_row r = is_pending r.status

recovered_row-fresh :
    (now timeout : ℕ) (r : Reminder) → is_stale now timeout (recovered_row now r) ≡ false
unfolding is_stale recovered_row
recovered_row-fresh now timeout r = refl

stale_not_pending :
    (now timeout : ℕ) (r : Reminder) → is_stale now timeout r ≡ true → is_pending r.status ≡ false
unfolding is_stale
stale_not_pending now timeout r h = ground arith

recovered_row-pending : (now : ℕ) (r : Reminder) → is_pending_row (recovered_row now r) ≡ true
unfolding recovered_row
recovered_row-pending now r = refl

module _ (now timeout : ℕ) where
  abbrev recovered : List Reminder → List Reminder
  recovered rows = update_where (is_stale now timeout) (recovered_row now) rows

  none_stale : (rows : List Reminder) → All (λ r. is_stale now timeout r ≡ false) (recovered rows)
  none_stale [] = tt
  none_stale (r ∷ rows) = elim (Bool-cases (is_stale now timeout r)) [
    | inl e ↦ rw e (recovered_row-fresh now timeout r, none_stale rows)
    | inr e ↦ rw e (e, none_stale rows)
  ]

  pending_grow :
      (rows : List Reminder)
      → count is_pending_row (recovered rows)
        ≡ count is_pending_row rows + count (is_stale now timeout) rows
  pending_grow [] = omega arith
  pending_grow (r ∷ rows) = elim (Bool-cases (is_stale now timeout r)) [
    | inl e ↦
        ground
          (arith, stale_not_pending now timeout r e, recovered_row-pending now r, pending_grow rows)
    | inr e ↦ ground (arith, pending_grow rows)
  ]

-- After a recovery no claim older than the timeout is left, and the number that it answers is the
-- number of reminders that became pending.
pub recover_stale_processing_lem :
    (timeout n : ℕ) (w w' : World)
    → recover_stale_processing timeout w ≡ (ok n, w')
    → All (λ r. is_stale (clock w) timeout r ≡ false) w'.db.reminders
      × (count is_pending_row w'.db.reminders ≡ count is_pending_row (seen w).reminders + n)
unfolding recover_stale_processing
recover_stale_processing_lem timeout n w w' h =
    let (answer, moved) = statement-ok _ w h in
    rw (answer, moved)
      (
        none_stale (clock w) timeout (seen w).reminders,
        pending_grow (clock w) timeout (seen w).reminders,
      )
