-- ===== src/Services/Analysis/Atomic.antt =====
-- The transaction of src/services/analysis.rs: everything or nothing, and on the analyzed version.
use mathlib.Core.Path.{subst}
use legaltech_contract_autom.Common.{
  ℕ, Bool, true, ◌≡◌, refl, sym, ap, ◌∙◌, ◌⊎◌, inl, inr, Bool-cases, Option, none, some, List, [],
  ◌∷◌, Result, ok, err, arith, and_parts, ==_iff, ◌++◌, filter, not, ◌==◌,
}
use legaltech_contract_autom.Errors.{AppError}
use legaltech_contract_autom.Db.Models.{Contract, Database}
use legaltech_contract_autom.Db.Session.{pure, ◌>>=◌, ◌>>◌, World, seen, start, after, throw}
use legaltech_contract_autom.Db.Transactions.{transaction-ok, transaction-err}
use legaltech_contract_autom.Db.Inversion.{after-ok}
use legaltech_contract_autom.Db.Contracts.{
  AnalysisColumns, is_completed, is_at_version, completed_contract, returning, complete_analysis,
  update_contracts,
}
use legaltech_contract_autom.Db.Details.{
  delete_risks_for_contract, delete_obligations_for_contract, insert_audit,
}
use legaltech_contract_autom.Ai.Provider.{AiProvider}
use legaltech_contract_autom.Ai.Validation.{ValidatedAnalysis}
use legaltech_contract_autom.Reminders.Service.{sql}
use legaltech_contract_autom.Services.Analysis.Stored.{
  IsStored, IsIn, Pairwise, Completes, inside, insert_risks-adds, insert_obligations-adds,
  update_contracts-Completes, returning-IsIn,
}
use legaltech_contract_autom.Services.Analysis.{
  insert_risks, insert_obligations, columns, rollback, unless_stale, replace_analysis,
  persist_analysis,
}

-- The contract as an analysis of the version leaves it.
abbrev pub IsAnalyzed : ℕ → ℕ → Contract → Type 0
IsAnalyzed id version c =
    (c.id ≡ id)
    × (c.content_version ≡ version)
    × (is_completed c.analysis_status ≡ true)
    × (c.analyzed_content_version ≡ some version)

completed_contract-IsAnalyzed :
    (now id version : ℕ) (a : AnalysisColumns) (c : Contract)
    → is_at_version id version c ≡ true
    → IsAnalyzed id version (completed_contract now version a c)
unfolding completed_contract is_at_version
completed_contract-IsAnalyzed now id version a c h =
    let (same_id, same_version) = and_parts _ _ h in
    ((==_iff c.id id).0 same_id, (==_iff c.content_version version).0 same_version, refl, refl)

-- What an UPDATE ... RETURNING answers is a changed row that passed its test.
returning-some :
    (test : Contract → Bool) (change : Contract → Contract) (cs : List Contract) {x : Contract}
    → returning test change cs ≡ some x
    → (c : Contract) × (test c ≡ true) × (change c ≡ x)
returning-some test change [] h = absurd (cc)
returning-some test change (c ∷ cs) h = elim (Bool-cases (test c)) [
  | inl e ↦ (c, e, ground arith)
  | inr e ↦ returning-some test change cs (rw (e, returning) at h)
]

pair-ok :
    {A : Type 0} {a b : A} {v v' : World}
    → ◌≡◌ {A = Result AppError A × World} (ok a, v) (ok b, v')
    → a ≡ b
pair-ok h = cc

-- A block that ends in an error returns no value.
throws :
    (e : AppError) (p : Result AppError (Unit {0}) × World) {c : Contract} {u : World}
    → after (λ _. throw e) p ≡ (ok c, u)
    → ⊥
throws e (ok _, v) h = absurd (cc)
throws e (err x, v) h = absurd (cc)

unless_stale-ok :
    (o : Option Contract) (v : World) {u : World} {c : Contract}
    → unless_stale o v ≡ (ok c, u)
    → o ≡ some c
unfolding unless_stale
unless_stale-ok (some x) v h = ap some (pair-ok h)
unless_stale-ok none v h = absurd (throws _ (sql rollback v) h)

-- A block that goes on leaves the connection where it is.
unless_stale_world :
    (o : Option Contract) (v : World) {u : World} {c : Contract}
    → unless_stale o v ≡ (ok c, u)
    → u ≡ v
unfolding unless_stale
unless_stale_world (some x) v h = sym (ap (λ (p : Result AppError Contract × World). p.1) h)
unless_stale_world none v h = absurd (throws _ (sql rollback v) h)

-- The end of the transaction's body: a contract that was found, and a line in the audit log.
record Ends (stored : Option Contract) (c : Contract) (before after : Database) : Type 0 where
  found : stored ≡ some c
  contracts : after.contracts ≡ before.contracts
  risks : after.risks ≡ before.risks
  obligations : after.obligations ≡ before.obligations

finish-Ends :
    (user_id : Option ℕ) (id now : ℕ) (stored : Option Contract) (w u : World) (c : Contract)
    → w.tx ≡ some now
    → (do
      updated ← unless_stale stored
      sql (insert_audit user_id "contract_analyzed" "contract" (some id))
      pure updated)
        w
      ≡ (ok c, u)
    → Ends stored c w.db u.db
unfolding insert_audit
finish-Ends user_id id now stored w u c t h =
    let k = after-ok {A = Contract} _ (unless_stale stored w) h in
    let here : k.1 ≡ w = unless_stale_world stored w k.2 in
    let l =
      after-ok {A = Unit {0}} _
        (sql (insert_audit user_id "contract_analyzed" "contract" (some id)) k.1) k.3 in
    let s = inside now _ k.1 (ap (λ (x : World). x.tx) here ∙ t) l.2 in
    let ended : u.db ≡ l.1.db = ap (λ (x : Result AppError Contract × World). x.1.db) (sym l.3) in
    record {
      found = unless_stale-ok stored w k.2 ∙ ap some (pair-ok l.3);
      contracts =
          ap (λ (x : Database). x.contracts) ended
          ∙ ap (λ (x : Database). x.contracts) s.2
          ∙ ap (λ (x : World). x.db.contracts) here;
      risks =
          ap (λ (x : Database). x.risks) ended
          ∙ ap (λ (x : Database). x.risks) s.2
          ∙ ap (λ (x : World). x.db.risks) here;
      obligations =
          ap (λ (x : Database). x.obligations) ended
          ∙ ap (λ (x : Database). x.obligations) s.2
          ∙ ap (λ (x : World). x.db.obligations) here;
    }

module _ (user_id id version : ℕ) (analysis : ValidatedAnalysis) (provider : AiProvider) where
  returning-IsAnalyzed :
      (now : ℕ) (a : AnalysisColumns) (cs : List Contract) (c : Contract)
      → returning (is_at_version id version) (completed_contract now version a) cs ≡ some c
      → IsAnalyzed id version c
  returning-IsAnalyzed now a cs c h =
      let (before, passed, changed) = returning-some (is_at_version id version) _ cs h in
      subst (IsAnalyzed id version) changed
        (completed_contract-IsAnalyzed now id version a before passed)

  replace_analysis-IsStored :
      (now : ℕ) (w u : World) (c : Contract)
      → w.tx ≡ some now
      → replace_analysis user_id id version analysis provider w ≡ (ok c, u)
      → IsAnalyzed id version c × IsStored now id version analysis provider w.db u.db c
  unfolding replace_analysis delete_risks_for_contract delete_obligations_for_contract
      complete_analysis
  replace_analysis-IsStored now w u c t h =
      let a = after-ok {A = ℕ} _ (sql (delete_risks_for_contract id) w) h in
      let sa = inside now _ w t a.2 in
      let b = after-ok {A = ℕ} _ (sql (delete_obligations_for_contract id) a.1) a.3 in
      let sb = inside now _ a.1 sa.3 b.2 in
      let d = after-ok {A = Unit {0}} _ (insert_risks id analysis.risks b.1) b.3 in
      let (risks, each_risk, with_risks, td) =
        insert_risks-adds now id analysis.risks b.1 sb.3 d.2 in
      let f = after-ok {A = Unit {0}} _ (insert_obligations id analysis.obligations d.1) d.3 in
      let (obligations, each_obligation, with_obligations, tf) =
        insert_obligations-adds now id analysis.obligations d.1 td f.2 in
      let g =
        after-ok {A = Option Contract} _
          (sql (complete_analysis id version (columns provider analysis)) f.1) f.3 in
      let sg = inside now _ f.1 tf g.2 in
      let e = finish-Ends (some user_id) id now g.0 g.1 u c sg.3 g.3 in
      let found = sym sg.1 ∙ e.found in
      let table : f.1.db.contracts ≡ w.db.contracts =
        ap (λ (x : Database). x.contracts) with_obligations
        ∙ ap (λ (x : Database). x.contracts) with_risks
        ∙ ap (λ (x : Database). x.contracts) sb.2
        ∙ ap (λ (x : Database). x.contracts) sa.2 in
      let written =
        e.contracts
        ∙ ap (λ (x : Database). x.contracts) sg.2
        ∙ ap
            (update_contracts (is_at_version id version)
              (completed_contract now version (columns provider analysis)))
            table in
      let answer =
        ap
          (λ cs.
            returning (is_at_version id version)
              (completed_contract now version (columns provider analysis)) cs)
          (sym table)
        ∙ found in
      (
        returning-IsAnalyzed now (columns provider analysis) w.db.contracts c answer,
        record {
          new_risks = risks;
          each_risk = each_risk;
          risks =
              e.risks
              ∙ ap (λ (x : Database). x.risks) sg.2
              ∙ ap (λ (x : Database). x.risks) with_obligations
              ∙ ap (λ (x : Database). x.risks) with_risks
              ∙ ap (λ (x : Database). x.risks ++ risks) sb.2
              ∙ ap (λ (x : Database). x.risks ++ risks) sa.2;
          new_obligations = obligations;
          each_obligation = each_obligation;
          obligations =
              e.obligations
              ∙ ap (λ (x : Database). x.obligations) sg.2
              ∙ ap (λ (x : Database). x.obligations) with_obligations
              ∙ ap (λ (x : Database). x.obligations ++ obligations) with_risks
              ∙ ap (λ (x : Database). x.obligations ++ obligations) sb.2
              ∙ ap
                  (λ (x : Database).
                    filter (λ o. not (o.contract_id == id)) x.obligations ++ obligations)
                  sa.2;
          contracts =
              subst (Pairwise (Completes now id version analysis provider) w.db.contracts)
                (sym written)
                (update_contracts-Completes now id version analysis provider w.db.contracts);
          returned =
              subst (IsIn c) (sym written)
                (returning-IsIn now id version analysis provider w.db.contracts c answer);
        },
      )

  -- Storing an analysis is all or nothing. Either the contract that is returned stands at the version
  -- that was analyzed and is marked as completed for it, and the tables have changed so: the
  -- contract's risks and obligations are those of the analysis, one row for each in order, behind the
  -- rows of other contracts; each row of the contract at that version has the analysis' columns, every
  -- other row is what it was, and the returned contract is one of them. Or there is an error, and no
  -- table has changed.
  pub persist_analysis_lem :
      (r : Result AppError Contract) (w w' : World)
      → persist_analysis user_id id version analysis provider w ≡ (r, w')
      → ((c : Contract) × (r ≡ ok c)
          × IsAnalyzed id version c
          × IsStored (w.turns w.tick).now id version analysis provider (seen w) w'.db c)
        ⊎ ((e : AppError) × (r ≡ err e) × (w'.db ≡ seen w))
  unfolding persist_analysis
  persist_analysis_lem (ok c) w w' h =
      let (v, ran, ended) = transaction-ok _ _ w h in
      let (analyzed, stored) =
        replace_analysis-IsStored (w.turns w.tick).now (start w) v c refl ran in
      inl (
        c,
        refl,
        analyzed,
        subst (λ x. IsStored (w.turns w.tick).now id version analysis provider (seen w) x c)
            (sym (ap (λ (x : World). x.db) ended)) stored,
      )
  persist_analysis_lem (err e) w w' h = inr (e, refl, transaction-err _ _ w h)
