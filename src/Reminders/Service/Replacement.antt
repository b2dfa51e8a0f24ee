-- ===== src/Reminders/Service/Replacement.antt =====
-- What a regeneration of src/reminders/service.rs does to the table of reminders.
use legaltech_contract_autom.Common.{
  ℕ, suc, ◌+◌, String, true, ◌≡◌, refl, sym, ap, ◌∙◌, Option, none, some, List, [], ◌∷◌, ◌++◌, All,
  any, length, ok, ◌⊎◌, Result, Bool-cases, inl, inr, arith,
}
use legaltech_contract_autom.Errors.{AppError, database}
use legaltech_contract_autom.Reminders.Types.{system, as_str_channel, telegram}
use legaltech_contract_autom.Db.Models.{Reminder, Database}
use legaltech_contract_autom.Db.Session.{World, seen, clock, start, transaction}
use legaltech_contract_autom.Db.Transactions.{transaction-ok}
use legaltech_contract_autom.Db.Inversion.{after-ok, lifted-ok, statement-ok}
use legaltech_contract_autom.Db.Reminders.{
  is_pending, is_system, conflicts, new_reminder, insert_system_row, insert_system_reminder,
  delete_pending_system_rows, delete_pending_system_reminders,
}
use legaltech_contract_autom.Db.Details.{insert_audit}
use legaltech_contract_autom.Reminders.Service.{
  sql, Target, GenerationResult, insert_targets, count_custom, replace_system_reminders,
}

-- A row that a regeneration makes.
pub record IsGenerated (contract_id version : ℕ) (r : Reminder) : Type 0 where
  pub contract : r.contract_id ≡ contract_id
  pub source : is_system r.reminder_source ≡ true
  pub status : is_pending r.status ≡ true
  pub from : r.source_content_version ≡ some version

++_shift : {A : Type 0} (xs : List A) (y : A) (zs : List A) → (xs ++ y ∷ []) ++ zs ≡ xs ++ y ∷ zs
++_shift [] y zs = refl
++_shift (x ∷ xs) y zs = ap (λ l. x ∷ l) (++_shift xs y zs)

++_nil : {A : Type 0} (xs : List A) → xs ≡ xs ++ []
++_nil [] = refl
++_nil (x ∷ xs) = ap (λ l. x ∷ l) (++_nil xs)

pair-ok :
    {A : Type 0} {a b : A} {v v' : World}
    → ◌≡◌ {A = Result AppError A × World} (ok a, v) (ok b, v')
    → (a ≡ b) × (v ≡ v')
pair-ok h = (cc, cc)

abbrev table_of : World → List Reminder
table_of w = w.db.reminders

-- Inside a transaction nothing of the others is seen.
seen-inside : {at : ℕ} (v : World) → v.tx ≡ some at → seen v ≡ v.db
seen-inside v h = ground arith

made :
    (now fresh contract_id version date : ℕ) (obligation_id : Option ℕ) (kind channel : String)
    → IsGenerated contract_id version
        (new_reminder now fresh contract_id obligation_id date kind channel system (some version))
unfolding new_reminder
made now fresh contract_id version date obligation_id kind channel = record {
  contract = refl;
  source = refl;
  status = refl;
  from = refl;
}

insert_row :
    (contract_id version : ℕ) (r : Reminder) (rows rows' : List Reminder) (o : Option Reminder)
    → IsGenerated contract_id version r
    → o ≡ (insert_system_row r rows).0
    → rows' ≡ (insert_system_row r rows).1
    → ((o ≡ none) × (rows' ≡ rows))
      ⊎ ((x : Reminder) × (o ≡ some x)
          × IsGenerated contract_id version x
          × (rows' ≡ rows ++ x ∷ []))
unfolding insert_system_row
insert_row contract_id version r rows rows' o g e k = elim (Bool-cases (any (conflicts r) rows)) [
  | inl taken ↦ inl (rw taken at e, rw taken at k)
  | inr free ↦ inr (r, rw free at e, g, rw free at k)
]

module _ (contract_id version at : ℕ) where
  -- What one insert does, inside the transaction that began at `at`.
  insert-ok :
      (t : Target) (v : World) {u : World} {o : Option Reminder}
      → v.tx ≡ some at
      → sql
          (insert_system_reminder contract_id t.obligation_id t.reminder_date t.reminder_type
            (as_str_channel telegram)
            version)
          v
        ≡ (ok o, u)
      → (u.tx ≡ some at)
        × (((o ≡ none) × (u.db.reminders ≡ v.db.reminders))
            ⊎ ((r : Reminder) × (o ≡ some r)
                × IsGenerated contract_id version r
                × (u.db.reminders ≡ v.db.reminders ++ r ∷ [])))
  unfolding insert_system_reminder
  insert-ok t v {u} {o} open_tx h =
      let (answer, moved) = statement-ok _ v (lifted-ok _ _ h) in
      let r =
        new_reminder at (v.turns v.tick).fresh contract_id t.obligation_id t.reminder_date
          t.reminder_type (as_str_channel telegram) system (some version) in
      let inside : seen v ≡ v.db = seen-inside v open_tx in
      let now : clock v ≡ at = ground arith in
      let answer' : o ≡ (insert_system_row r v.db.reminders).0 = rw (inside, now) at answer in
      let moved' : u.db.reminders ≡ (insert_system_row r v.db.reminders).1 =
        rw (inside, now) at (ap (λ (x : World). x.db.reminders) moved) in
      let still : u.tx ≡ some at = ap (λ (x : World). x.tx) moved ∙ open_tx in
      (
        still,
        insert_row contract_id version r v.db.reminders _ o (made at _ contract_id version _ _ _ _)
            answer' moved',
      )

  -- The table and the counters between two points of the loop.
  abbrev Added : World → World → (c s : ℕ) → ℕ × ℕ → (targets : ℕ) → Type 0
  Added v v' c s counts targets =
      (rows : List Reminder) × (v'.db.reminders ≡ v.db.reminders ++ rows)
      × All (IsGenerated contract_id version) rows
      × (counts.0 ≡ c + length rows)
      × (counts.0 + counts.1 ≡ c + s + targets)
      × (v'.tx ≡ some at)

  skipped-Added :
      (u v v' : World) (c s : ℕ) (counts : ℕ × ℕ) (n : ℕ)
      → u.db.reminders ≡ v.db.reminders
      → Added u v' c (suc s) counts n
      → Added v v' c s counts (suc n)
  skipped-Added u v v' c s counts n same (rows, table, made_rows, created, total, open_tx) =
      (rows, rw same at table, made_rows, created, omega (arith, total), open_tx)

  created-Added :
      (u v v' : World) (r : Reminder) (c s : ℕ) (counts : ℕ × ℕ) (n : ℕ)
      → u.db.reminders ≡ v.db.reminders ++ r ∷ []
      → IsGenerated contract_id version r
      → Added u v' (suc c) s counts n
      → Added v v' c s counts (suc n)
  created-Added u v v' r c s counts n grown g (rows, table, made_rows, created, total, open_tx) = (
    r ∷ rows,
    table ∙ ap (λ l. l ++ rows) grown ∙ ++_shift v.db.reminders r rows,
    (g, made_rows),
    omega (arith, created),
    omega (arith, total),
    open_tx,
  )

  insert_targets-Added :
      (ts : List Target) (c s : ℕ) (v : World) {v' : World} {counts : ℕ × ℕ}
      → v.tx ≡ some at
      → insert_targets contract_id version ts c s v ≡ (ok counts, v')
      → Added v v' c s counts (length ts)
  unfolding insert_targets
  insert_targets-Added [] c s v {v'} {counts} open_tx h =
      let (same, here) = pair-ok h in
      let first : c ≡ counts.0 = ap (λ (p : ℕ × ℕ). p.0) same in
      let second : s ≡ counts.1 = ap (λ (p : ℕ × ℕ). p.1) same in
      (
        [],
        ap (λ (x : World). x.db.reminders) (sym here) ∙ ++_nil v.db.reminders,
        tt,
        omega (arith, first),
        omega (arith, first, second),
        rw here at open_tx,
      )
  insert_targets-Added (t ∷ ts) c s v {v'} {counts} open_tx h =
      let (o, u, step, rest) = after-ok _ _ h in
      let (still, outcome) = insert-ok t v open_tx step in
      elim outcome [
        | inl (skipped, same) ↦
            skipped-Added u v v' c s counts (length ts) same
              (insert_targets-Added ts c (suc s) u still (rw skipped at rest))
        | inr (r, inserted, g, grown) ↦
            created-Added u v v' r c s counts (length ts) grown g
              (insert_targets-Added ts (suc c) s u still (rw inserted at rest))
      ]

-- A regeneration that succeeds removes the contract's pending system reminders and keeps every other
-- row; what it adds are pending system reminders of the contract for the given version, as many as
-- it reports, and each target is either created or reported as a duplicate.
pub replace_system_reminders_lem :
    (user_id contract_id version : ℕ) (ts : List Target) (g : GenerationResult) (w w' : World)
    → transaction (λ e. database) (replace_system_reminders user_id contract_id version ts) w
      ≡ (ok g, w')
    → (rows : List Reminder) × (w'.db.reminders
        ≡ delete_pending_system_rows contract_id (seen w).reminders ++ rows)
      × All (IsGenerated contract_id version) rows
      × (g.created ≡ length rows)
      × (g.created + g.skipped_duplicates ≡ length ts)
unfolding replace_system_reminders delete_pending_system_reminders count_custom insert_audit
replace_system_reminders_lem user_id contract_id version ts g w w' h =
    let at = (w.turns w.tick).now in
    let (v, ran, kept) = transaction-ok _ _ w h in
    let (deleted, u₁, h₁, r₁) = after-ok _ _ ran in
    let (counts, u₂, h₂, r₂) = after-ok _ _ r₁ in
    let (custom, u₃, h₃, r₃) = after-ok _ _ r₂ in
    let (_, u₄, h₄, r₄) = after-ok _ _ r₃ in
    let (_, m₁) = statement-ok _ (start w) (lifted-ok _ _ h₁) in
    let (_, m₃) = statement-ok _ u₂ (lifted-ok _ _ h₃) in
    let (_, m₄) = statement-ok _ u₃ (lifted-ok _ _ h₄) in
    let open₁ : u₁.tx ≡ some at = ap (λ (x : World). x.tx) m₁ in
    let (rows, table, made_rows, created, total, open₂) =
      insert_targets-Added contract_id version at ts 0 0 u₁ open₁ h₂ in
    let in₂ = seen-inside u₂ open₂ in
    let open₃ : u₃.tx ≡ some at = ap (λ (x : World). x.tx) m₃ ∙ open₂ in
    let in₃ = seen-inside u₃ open₃ in
    let (made_result, here) = pair-ok r₄ in
    let t₁ : u₁.db.reminders ≡ delete_pending_system_rows contract_id (seen w).reminders =
      ap table_of m₁ in
    let t₃ : u₃.db.reminders ≡ (seen u₂).reminders = ap table_of m₃ in
    let t₄ : u₄.db.reminders ≡ (seen u₃).reminders = ap table_of m₄ in
    let t₅ : w'.db.reminders ≡ v.db.reminders = ap table_of kept in
    let down₂ : (seen u₂).reminders ≡ u₂.db.reminders = ap (λ (d : Database). d.reminders) in₂ in
    let down₃ : (seen u₃).reminders ≡ u₃.db.reminders = ap (λ (d : Database). d.reminders) in₃ in
    let c₁ : counts.0 ≡ g.created = ap (λ (x : GenerationResult). x.created) made_result in
    let c₂ : counts.1 ≡ g.skipped_duplicates =
      ap (λ (x : GenerationResult). x.skipped_duplicates) made_result in
    (
      rows,
      t₅ ∙ sym (ap table_of here) ∙ t₄ ∙ down₃ ∙ t₃ ∙ down₂ ∙ table ∙ ap (λ l. l ++ rows) t₁,
      made_rows,
      omega (arith, c₁, created),
      omega (arith, c₁, c₂, total),
    )
