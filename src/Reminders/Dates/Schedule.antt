-- ===== src/Reminders/Dates/Schedule.antt =====
-- The reminder dates of src/reminders/dates.rs against a description without failing subtractions.
use legaltech_contract_autom.Common.{
  ℕ, ◌+◌, ◌-◌, Bool, true, false, ◌≡◌, refl, ap, ◌∙◌, List, [], ◌∷◌, map, filter, leb, Option, none,
  some, Bool-cases, inl, inr, arith,
}
use legaltech_contract_autom.Reminders.Dates.{
  Offset, standard_offsets, ComputedReminder, computed, collect, system_reminders_for,
}

-- The reminder of an offset that is not past.
abbrev pub reminder_at : ℕ → Offset → ComputedReminder
reminder_at deadline o = record { reminder_date = deadline - o.days; reminder_type = o.kind }

abbrev pub is_ahead : ℕ → ℕ → Offset → Bool
is_ahead deadline today o = leb (today + o.days) deadline

computed-ahead :
    (deadline today : ℕ) (o : Offset)
    → is_ahead deadline today o ≡ true
    → computed deadline today o ≡ some (reminder_at deadline o)
unfolding computed
computed-ahead deadline today o h = ground arith

computed-past :
    (deadline today : ℕ) (o : Offset)
    → is_ahead deadline today o ≡ false
    → computed deadline today o ≡ none
unfolding computed
computed-past deadline today o h = ground arith

abbrev push : List ComputedReminder → Option ComputedReminder → List ComputedReminder
push rest none = rest
push rest (some c) = c ∷ rest

collect-push :
    (deadline today : ℕ) (o : Offset) (os : List Offset) {c : Option ComputedReminder}
    → computed deadline today o ≡ c
    → collect deadline today (o ∷ os) ≡ push (collect deadline today os) c
unfolding collect
collect-push deadline today o os e = ap (push (collect deadline today os)) e

collect-eq :
    (deadline today : ℕ) (os : List Offset)
    → collect deadline today os ≡ map (reminder_at deadline) (filter (is_ahead deadline today) os)
unfolding collect
collect-eq deadline today [] = refl
collect-eq deadline today (o ∷ os) = elim (Bool-cases (is_ahead deadline today o)) [
  | inl e ↦
      collect-push deadline today o os (computed-ahead deadline today o e)
      ∙ rw e (ap (λ cs. reminder_at deadline o ∷ cs) (collect-eq deadline today os))
  | inr e ↦
      collect-push deadline today o os (computed-past deadline today o e)
      ∙ rw e (collect-eq deadline today os)
]

-- The reminders of a deadline are those of the standard offsets that reach back from it to today or
-- later, each that many days before the deadline, in the order of the offsets.
pub system_reminders_for-eq :
    (deadline today : ℕ)
    → system_reminders_for deadline today
      ≡ map (reminder_at deadline) (filter (is_ahead deadline today) standard_offsets)
unfolding system_reminders_for
system_reminders_for-eq deadline today = collect-eq deadline today standard_offsets
