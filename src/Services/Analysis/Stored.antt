-- ===== src/Services/Analysis/Stored.antt =====
-- The tables that the transaction of src/services/analysis.rs leaves behind.
use mathlib.Core.List.{append-nil, append_assoc}
use legaltech_contract_autom.Common.{
  ℕ, true, false, not, ◌≡◌, refl, sym, ap, ◌∙◌, ◌⊎◌, inl, inr, Bool-cases, none, some, List, [],
  ◌∷◌, ◌++◌, filter, Result, ok, arith, and_parts, ==_iff, ◌==◌,
}
use legaltech_contract_autom.Errors.{AppError, database}
use legaltech_contract_autom.Db.Models.{
  Contract, ContractRisk, ContractObligation, Database, completed,
}
use legaltech_contract_autom.Db.Session.{World, statement}
use legaltech_contract_autom.Db.Inversion.{after-ok, lifted-ok, statement-ok}
use legaltech_contract_autom.Db.Contracts.{
  is_at_version, completed_contract, update_contracts, returning,
}
use legaltech_contract_autom.Db.Details.{insert_risk, insert_obligation_full}
use legaltech_contract_autom.Ai.Provider.{AiProvider}
use legaltech_contract_autom.Ai.Validation.{ValidatedAnalysis, ValidatedRisk, ValidatedObligation}
use legaltech_contract_autom.Reminders.Service.{sql}
use legaltech_contract_autom.Services.Summary.{summarize}
use legaltech_contract_autom.Services.Analysis.{
  insert_risks, insert_obligations, columns, prompt_version,
}

-- A row with the values of a risk of the analysis.
pub record HoldsRisk (contract_id : ℕ) (v : ValidatedRisk) (r : ContractRisk) : Type 0 where
  pub of_contract : r.contract_id ≡ contract_id
  pub same_title : r.title ≡ v.title
  pub same_description : r.description ≡ v.description
  pub same_level : r.risk_level ≡ v.risk_level
  pub same_score : r.risk_score ≡ v.risk_score
  pub same_evidence : r.evidence ≡ v.evidence

pub record HoldsObligation (contract_id : ℕ) (v : ValidatedObligation) (o : ContractObligation)
    : Type 0 where
  pub of_contract : o.contract_id ≡ contract_id
  pub same_title : o.title ≡ v.title
  pub same_description : o.description ≡ v.description
  pub same_due_date : o.due_date ≡ v.due_date
  pub same_party : o.responsible_party ≡ v.responsible_party
  pub same_status : o.status ≡ v.status
  pub same_level : o.risk_level ≡ v.risk_level

-- One row for each value, in order.
abbrev pub Pairwise : {A B : Type 0} → (A → B → Type 0) → List A → List B → Type 0
Pairwise R [] [] = Unit
Pairwise R [] (_ ∷ _) = ⊥
Pairwise R (_ ∷ _) [] = ⊥
Pairwise R (a ∷ as') (b ∷ bs) = R a b × Pairwise R as' bs

abbrev pub IsIn : Contract → List Contract → Type 0
IsIn c [] = ⊥
IsIn c (x ∷ xs) = (c ≡ x) ⊎ IsIn c xs

-- The contract at the version that was analyzed.
abbrev pub IsAt : (id version : ℕ) → Contract → Type 0
IsAt id version c = (c.id ≡ id) × (c.content_version ≡ version)

-- What an analysis writes into a contract's row at a time.
abbrev pub Completes :
    (now id version : ℕ) → ValidatedAnalysis → AiProvider → Contract → Contract → Type 0
Completes now id version v provider c d =
    (IsAt id version c
      × (d ≡ record c {
        start_date = v.start_date;
        end_date = v.end_date;
        risk_level = (summarize v).level;
        risk_score = (summarize v).score;
        risk_summary = (summarize v).text;
        analysis_status = completed;
        analyzed_at = some now;
        analyzed_content_version = some version;
        analysis_provider = some provider.name;
        analysis_model = some provider.model;
        analysis_prompt_version = some prompt_version;
        analysis_error = none;
        updated_at = now;
      }))
    ⊎ ((IsAt id version c → ⊥) × (d ≡ c))

-- The tables after an analysis is stored.
pub record IsStored (now id version : ℕ) (v : ValidatedAnalysis) (provider : AiProvider)
    (before after : Database) (c : Contract) : Type 0 where
  pub new_risks : List ContractRisk
  pub each_risk : Pairwise (HoldsRisk id) v.risks new_risks
  pub risks : after.risks ≡ filter (λ r. not (r.contract_id == id)) before.risks ++ new_risks
  pub new_obligations : List ContractObligation
  pub each_obligation : Pairwise (HoldsObligation id) v.obligations new_obligations
  pub obligations :
      after.obligations
      ≡ filter (λ o. not (o.contract_id == id)) before.obligations ++ new_obligations
  pub contracts : Pairwise (Completes now id version v provider) before.contracts after.contracts
  pub returned : IsIn c after.contracts

-- A statement inside a transaction that began at `now`.
pub inside :
    {A : Type 0} (now : ℕ) (run : ℕ → ℕ → Database → A × Database) (w : World) {u : World} {a : A}
    → w.tx ≡ some now
    → sql (statement run) w ≡ (ok a, u)
    → (fresh : ℕ) × (a ≡ (run now fresh w.db).0)
      × (u.db ≡ (run now fresh w.db).1)
      × (u.tx ≡ some now)
inside now run w t h =
    let q = statement-ok run w (lifted-ok (λ e. database) (statement run w) h) in
    (
      (w.turns w.tick).fresh,
      rw t at q.0,
      rw t at (ap (λ (x : World). x.db) q.1),
      ap (λ (x : World). x.tx) q.1 ∙ t,
    )

module _ (now id : ℕ) where
  same_world :
      {u w : World} → ◌≡◌ {A = Result AppError (Unit {0}) × World} (ok tt, w) (ok tt, u) → u ≡ w
  same_world h = sym (ap (λ (x : Result AppError (Unit {0}) × World). x.1) h)

  pub insert_risks-adds :
      (vs : List ValidatedRisk) (w : World) {u : World}
      → w.tx ≡ some now
      → insert_risks id vs w ≡ (ok tt, u)
      → (added : List ContractRisk) × Pairwise (HoldsRisk id) vs added
        × (u.db ≡ record w.db { risks = w.db.risks ++ added })
        × (u.tx ≡ some now)
  unfolding insert_risks insert_risk
  insert_risks-adds [] w t h =
      let same = same_world h in
      (
        [],
        tt,
        ap (λ (x : World). x.db) same
            ∙ ap (λ l. record w.db { risks = l }) (sym (append-nil w.db.risks)),
        ap (λ (x : World). x.tx) same ∙ t,
      )
  insert_risks-adds (v ∷ vs) w t h =
      let q =
        after-ok {A = ContractRisk} _
          (sql (insert_risk id v.title v.description v.risk_level v.risk_score v.evidence) w) h in
      let s = inside now _ w t q.2 in
      let (added, each, table, began) = insert_risks-adds vs q.1 s.3 q.3 in
      let row : ContractRisk = record {
        id = s.0;
        contract_id = id;
        title = v.title;
        description = v.description;
        risk_level = v.risk_level;
        risk_score = v.risk_score;
        evidence = v.evidence;
        created_at = now;
      } in
      (
        row ∷ added,
        (
          record {
            of_contract = refl;
            same_title = refl;
            same_description = refl;
            same_level = refl;
            same_score = refl;
            same_evidence = refl;
          },
          each,
        ),
        table
            ∙ ap (λ (d : Database). record d { risks = d.risks ++ added }) s.2
            ∙ ap (λ l. record w.db { risks = l }) (append_assoc w.db.risks (row ∷ []) added),
        began,
      )

  pub insert_obligations-adds :
      (vs : List ValidatedObligation) (w : World) {u : World}
      → w.tx ≡ some now
      → insert_obligations id vs w ≡ (ok tt, u)
      → (added : List ContractObligation) × Pairwise (HoldsObligation id) vs added
        × (u.db ≡ record w.db { obligations = w.db.obligations ++ added })
        × (u.tx ≡ some now)
  unfolding insert_obligations insert_obligation_full
  insert_obligations-adds [] w t h =
      let same = same_world h in
      (
        [],
        tt,
        ap (λ (x : World). x.db) same
            ∙ ap (λ l. record w.db { obligations = l }) (sym (append-nil w.db.obligations)),
        ap (λ (x : World). x.tx) same ∙ t,
      )
  insert_obligations-adds (v ∷ vs) w t h =
      let q =
        after-ok {A = ContractObligation} _
          (sql
            (insert_obligation_full id v.title v.description v.due_date v.responsible_party v.status
              v.risk_level)
            w)
          h in
      let s = inside now _ w t q.2 in
      let (added, each, table, began) = insert_obligations-adds vs q.1 s.3 q.3 in
      let row : ContractObligation = record {
        id = s.0;
        contract_id = id;
        title = v.title;
        description = v.description;
        due_date = v.due_date;
        responsible_party = v.responsible_party;
        status = v.status;
        risk_level = v.risk_level;
        created_at = now;
        updated_at = now;
      } in
      (
        row ∷ added,
        (
          record {
            of_contract = refl;
            same_title = refl;
            same_description = refl;
            same_due_date = refl;
            same_party = refl;
            same_status = refl;
            same_level = refl;
          },
          each,
        ),
        table
            ∙ ap (λ (d : Database). record d { obligations = d.obligations ++ added }) s.2
            ∙ ap (λ l. record w.db { obligations = l })
                (append_assoc w.db.obligations (row ∷ []) added),
        began,
      )

  module _ (version : ℕ) (v : ValidatedAnalysis) (provider : AiProvider) where
    IsAt-version : (c : Contract) → is_at_version id version c ≡ true → IsAt id version c
    unfolding is_at_version
    IsAt-version c h =
        let (same_id, same_version) = and_parts _ _ h in
        ((==_iff c.id id).0 same_id, (==_iff c.content_version version).0 same_version)

    not_at_version : (c : Contract) → is_at_version id version c ≡ false → IsAt id version c → ⊥
    unfolding is_at_version
    not_at_version c h at = absurd (ground (arith, at.0, at.1))

    abbrev complete : Contract → Contract
    complete = completed_contract now version (columns provider v)

    pub update_contracts-Completes :
        (cs : List Contract)
        → Pairwise
            (Completes now id version v provider)
            cs
            (update_contracts (is_at_version id version) complete cs)
    unfolding completed_contract columns
    update_contracts-Completes [] = tt
    update_contracts-Completes (c ∷ cs) = elim (Bool-cases (is_at_version id version c)) [
      | inl e ↦ rw e (inl (IsAt-version c e, refl), update_contracts-Completes cs)
      | inr e ↦ rw e (inr (not_at_version c e, refl), update_contracts-Completes cs)
    ]

    pub returning-IsIn :
        (cs : List Contract) (c : Contract)
        → returning (is_at_version id version) complete cs ≡ some c
        → IsIn c (update_contracts (is_at_version id version) complete cs)
    returning-IsIn [] c h = absurd (cc)
    returning-IsIn (x ∷ cs) c h = elim (Bool-cases (is_at_version id version x)) [
      | inl e ↦ rw e (inl (let same : some (complete x) ≡ some c = rw (e, returning) at h in cc))
      | inr e ↦ rw e (inr (returning-IsIn cs c (rw (e, returning) at h)))
    ]
