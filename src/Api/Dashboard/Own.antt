-- ===== src/Api/Dashboard/Own.antt =====
-- src/api/dashboard.rs: a summary shows nothing of other users' rows.
use legaltech_contract_autom.Common.{
  ℕ, ◌≡◌, refl, sym, ap, ◌∙◌, Bool, true, ◌&&◌, ◌==◌, any, count, filter, arith, inl, inr,
  Bool-cases, List, [], ◌∷◌, ok,
}
use legaltech_contract_autom.Reminders.Types.{pending, sent, failed}
use legaltech_contract_autom.Db.Models.{
  Contract, ContractObligation, Reminder, NotificationChannel, Database,
}
use legaltech_contract_autom.Db.Session.{World, seen, clock, statement}
use legaltech_contract_autom.Db.Dashboard.{
  dashboard_counts, load_dashboard_counts, belongs, is_analyzed, awaits_analysis, is_high,
  is_overdue, has_status, is_upcoming,
}
use legaltech_contract_autom.Auth.Extractor.{AuthenticatedUser}
use legaltech_contract_autom.Api.Dashboard.{summary, summary_of}

-- One of the user's own contracts has the id.
abbrev pub owns : (user_id : ℕ) → Database → (contract_id : ℕ) → Bool
owns user_id db contract_id =
    any (λ (c : Contract). c.id == contract_id) (filter (λ c. c.user_id == user_id) db.contracts)

-- The user's own contracts and channels, and the obligations and reminders of those contracts.
pub record SameOwn (user_id : ℕ) (db db' : Database) : Type 0 where
  pub contracts :
      filter (λ c. c.user_id == user_id) db.contracts
      ≡ filter (λ c. c.user_id == user_id) db'.contracts
  pub obligations :
      filter (λ o. owns user_id db o.contract_id) db.obligations
      ≡ filter (λ o. owns user_id db' o.contract_id) db'.obligations
  pub reminders :
      filter (λ r. owns user_id db r.contract_id) db.reminders
      ≡ filter (λ r. owns user_id db' r.contract_id) db'.reminders
  pub channels :
      filter (λ c. c.user_id == user_id) db.channels
      ≡ filter (λ c. c.user_id == user_id) db'.channels

any-filter :
    (user_id id : ℕ) (cs : List Contract)
    → any (λ c. c.id == id && c.user_id == user_id) cs
      ≡ any (λ c. c.id == id) (filter (λ c. c.user_id == user_id) cs)
any-filter user_id id [] = refl
any-filter user_id id (c ∷ cs) =
    let ih = any-filter user_id id cs in
    elim (Bool-cases (c.user_id == user_id)) [
      | inl e ↦ rw (e, ih) (ground arith)
      | inr e ↦ rw (e, ih) (ground arith)
    ]

-- The join finds the rows of the user's own contracts.
joined :
    {A : Type 0} (key : A → ℕ) (user_id : ℕ) (db db' : Database) (xs ys : List A)
    → filter (λ x. owns user_id db (key x)) xs ≡ filter (λ x. owns user_id db' (key x)) ys
    → filter (λ x. belongs user_id db (key x)) xs ≡ filter (λ x. belongs user_id db' (key x)) ys
joined key user_id db db' xs ys h =
    ap (λ (f : ℕ → Bool). filter (λ x. f (key x)) xs) (λ i id. any-filter user_id id db.contracts i)
    ∙ h
    ∙ sym (
        ap (λ (f : ℕ → Bool). filter (λ x. f (key x)) ys)
          (λ i id. any-filter user_id id db'.contracts i))

count-filter :
    {A : Type 0} (p q : A → Bool) (xs : List A) → count (λ x. p x && q x) xs ≡ count q (filter p xs)
count-filter p q [] = refl
count-filter p q (x ∷ xs) = elim (Bool-cases (p x)) [
  | inl e ↦ rw (e, count-filter p q xs) refl
  | inr e ↦ rw (e, count-filter p q xs) refl
]

count-filter_all :
    {A : Type 0} (p : A → Bool) (xs : List A) → count p xs ≡ count (λ x. true) (filter p xs)
count-filter_all p [] = refl
count-filter_all p (x ∷ xs) = elim (Bool-cases (p x)) [
  | inl e ↦ rw (e, count-filter_all p xs) refl
  | inr e ↦ rw (e, count-filter_all p xs) refl
]

same_count :
    {A : Type 0} (p p' q : A → Bool) (xs ys : List A)
    → filter p xs ≡ filter p' ys
    → count (λ x. p x && q x) xs ≡ count (λ x. p' x && q x) ys
same_count p p' q xs ys h = count-filter p q xs ∙ ap (count q) h ∙ sym (count-filter p' q ys)

same_total :
    {A : Type 0} (p p' : A → Bool) (xs ys : List A)
    → filter p xs ≡ filter p' ys
    → count p xs ≡ count p' ys
same_total p p' xs ys h =
    count-filter_all p xs ∙ ap (count (λ x. true)) h ∙ sym (count-filter_all p' ys)

counts_own :
    (user_id now : ℕ) (db db' : Database)
    → SameOwn user_id db db'
    → dashboard_counts user_id now db ≡ dashboard_counts user_id now db'
unfolding dashboard_counts
counts_own user_id now db db' s = λ i. record {
  total_contracts =
      same_total (λ (c : Contract). c.user_id == user_id) (λ c. c.user_id == user_id) db.contracts
        db'.contracts s.contracts i;
  analyzed_contracts =
      same_count (λ (c : Contract). c.user_id == user_id) (λ c. c.user_id == user_id)
        (λ c. is_analyzed c.analysis_status) db.contracts db'.contracts s.contracts i;
  pending_analysis_contracts =
      same_count (λ (c : Contract). c.user_id == user_id) (λ c. c.user_id == user_id)
        (λ c. awaits_analysis c.analysis_status) db.contracts db'.contracts s.contracts i;
  high_or_critical_contracts =
      same_count (λ (c : Contract). c.user_id == user_id) (λ c. c.user_id == user_id)
        (λ c. is_high c.risk_level) db.contracts db'.contracts s.contracts i;
  overdue_obligations =
      same_count (λ (o : ContractObligation). belongs user_id db o.contract_id)
        (λ o. belongs user_id db' o.contract_id) (λ o. is_overdue now o) db.obligations
        db'.obligations
        (joined (λ (o : ContractObligation). o.contract_id) user_id db db' db.obligations
          db'.obligations s.obligations)
        i;
  pending_reminders =
      same_count (λ (r : Reminder). belongs user_id db r.contract_id)
        (λ r. belongs user_id db' r.contract_id) (λ r. has_status pending r.status) db.reminders
        db'.reminders
        (joined (λ (r : Reminder). r.contract_id) user_id db db' db.reminders db'.reminders
          s.reminders)
        i;
  sent_reminders =
      same_count (λ (r : Reminder). belongs user_id db r.contract_id)
        (λ r. belongs user_id db' r.contract_id) (λ r. has_status sent r.status) db.reminders
        db'.reminders
        (joined (λ (r : Reminder). r.contract_id) user_id db db' db.reminders db'.reminders
          s.reminders)
        i;
  failed_reminders =
      same_count (λ (r : Reminder). belongs user_id db r.contract_id)
        (λ r. belongs user_id db' r.contract_id) (λ r. has_status failed r.status) db.reminders
        db'.reminders
        (joined (λ (r : Reminder). r.contract_id) user_id db db' db.reminders db'.reminders
          s.reminders)
        i;
  upcoming_reminders_30d =
      same_count (λ (r : Reminder). belongs user_id db r.contract_id)
        (λ r. belongs user_id db' r.contract_id)
        (λ r. has_status pending r.status && is_upcoming now r) db.reminders db'.reminders
        (joined (λ (r : Reminder). r.contract_id) user_id db db' db.reminders db'.reminders
          s.reminders)
        i;
  enabled_channels =
      same_count (λ (c : NotificationChannel). c.user_id == user_id) (λ c. c.user_id == user_id)
        (λ c. c.enabled) db.channels db'.channels s.channels i;
}

-- Two databases in which a user has the same rows answer the same summary at the same time, whatever
-- rows other users have in them, if both or neither refuse the statement.
pub summary-own :
    (auth : AuthenticatedUser) (w w' : World)
    → SameOwn auth.user_id (seen w) (seen w')
    → clock w ≡ clock w'
    → (w.turns w.tick).refused ≡ (w'.turns w'.tick).refused
    → (summary auth w).0 ≡ (summary auth w').0
unfolding summary load_dashboard_counts dashboard_counts summary_of statement
summary-own auth w w' own time same = elim (Bool-cases (w'.turns w'.tick).refused) [
  | inl e ↦ rw (same ∙ e, e) refl
  | inr e ↦
      let counts =
        ap (λ t. dashboard_counts auth.user_id t (seen w)) time
        ∙ counts_own auth.user_id (clock w') (seen w) (seen w') own in
      rw (same ∙ e, e) (ap (λ d. ok (summary_of d)) counts)
]
