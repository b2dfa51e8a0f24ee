-- ===== src/Db/Details.antt =====
-- src/db/{risks,obligations,audit}.rs: the rows that hang on a contract, and the audit log.
use legaltech_contract_autom.Common.{
  ℕ, ℤ, pos, negsuc, ◌||◌, ◌&&◌, String, Bool, true, false, not, Option, none, some, if◌then◌else◌,
  ◌==◌, ltb, leb, List, [], ◌∷◌, ◌++◌, filter, any, count, sort_by,
}
use legaltech_contract_autom.Db.Models.{ContractRisk, ContractObligation, AuditLog}
use legaltech_contract_autom.Db.Session.{Db, DbError, statement}

unfoldable pub delete_risks_for_contract : ℕ → Db DbError ℕ
delete_risks_for_contract contract_id = statement λ now fresh db. (
  count (λ r. r.contract_id == contract_id) db.risks,
  record db { risks = filter (λ r. not (r.contract_id == contract_id)) db.risks },
)

unfoldable pub insert_risk :
    (contract_id : ℕ) (title description risk_level : String) (risk_score : ℤ) (evidence : String)
    → Db DbError ContractRisk
insert_risk contract_id title description risk_level risk_score evidence = statement λ now fresh db.
    let r : ContractRisk = record {
      id = fresh;
      contract_id = contract_id;
      title = title;
      description = description;
      risk_level = risk_level;
      risk_score = risk_score;
      evidence = evidence;
      created_at = now;
    } in
    (r, record db { risks = db.risks ++ r ∷ [] })

-- Is the obligation one of the contract's? (A reminder may reference none.)
abbrev pub refers_to : List ContractObligation → ℕ → Option ℕ → Bool
refers_to obligations contract_id none = false
refers_to obligations contract_id (some id) =
    any (λ o. o.id == id) (filter (λ o. o.contract_id == contract_id) obligations)

-- The composite foreign key of `reminders` deletes the reminders of a deleted obligation.
unfoldable pub delete_obligations_for_contract : ℕ → Db DbError ℕ
delete_obligations_for_contract contract_id = statement λ now fresh db. (
  count (λ o. o.contract_id == contract_id) db.obligations,
  record db {
    obligations = filter (λ o. not (o.contract_id == contract_id)) db.obligations;
    reminders =
        filter
          (λ r. not (
            if r.contract_id == contract_id
            then refers_to db.obligations contract_id r.obligation_id
            else false))
          db.reminders;
  },
)

unfoldable pub insert_obligation_full :
    (contract_id : ℕ) (title description : String)
    → (due_date : Option ℕ) (responsible_party : Option String) (status : String)
    → (risk_level : Option String) → Db DbError ContractObligation
insert_obligation_full contract_id title description due_date responsible_party status risk_level =
    statement λ now fresh db.
      let o : ContractObligation = record {
        id = fresh;
        contract_id = contract_id;
        title = title;
        description = description;
        due_date = due_date;
        responsible_party = responsible_party;
        status = status;
        risk_level = risk_level;
        created_at = now;
        updated_at = now;
      } in
      (o, record db { obligations = db.obligations ++ o ∷ [] })

-- due_date ASC NULLS LAST
abbrev due_before : Option ℕ → Option ℕ → Bool
due_before none none = false
due_before none (some b) = false
due_before (some a) none = true
due_before (some a) (some b) = ltb a b

-- ORDER BY due_date ASC NULLS LAST, created_at ASC
unfoldable pub obligation_before : ContractObligation → ContractObligation → Bool
obligation_before o p =
    if due_before o.due_date p.due_date
    then true
    else if due_before p.due_date o.due_date
    then false
    else leb o.created_at p.created_at

-- ORDER BY risk_score DESC, created_at ASC
abbrev pub score_lt : ℤ → ℤ → Bool
score_lt (pos a) (pos b) = ltb a b
score_lt (pos a) (negsuc b) = false
score_lt (negsuc a) (pos b) = true
score_lt (negsuc a) (negsuc b) = ltb b a

unfoldable pub risk_before : ContractRisk → ContractRisk → Bool
risk_before a b =
    score_lt b.risk_score a.risk_score
    || not (score_lt a.risk_score b.risk_score) && leb a.created_at b.created_at

unfoldable pub list_risks_for_contract : ℕ → Db DbError (List ContractRisk)
unfolding risk_before
list_risks_for_contract contract_id =
    statement λ now fresh db.
      (sort_by risk_before (filter (λ r. r.contract_id == contract_id) db.risks), db)

unfoldable pub list_obligations_for_contract : ℕ → Db DbError (List ContractObligation)
unfolding obligation_before
list_obligations_for_contract contract_id = statement λ now fresh db.
    (sort_by obligation_before (filter (λ o. o.contract_id == contract_id) db.obligations), db)

-- SELECT EXISTS (SELECT 1 FROM contract_obligations WHERE id = $1 AND contract_id = $2)
unfoldable pub obligation_exists : ℕ → ℕ → Db DbError Bool
obligation_exists obligation_id contract_id =
    statement λ now fresh db. (refers_to db.obligations contract_id (some obligation_id), db)

unfoldable pub insert_audit : Option ℕ → String → String → Option ℕ → Db DbError (Unit {0})
insert_audit user_id action entity_type entity_id = statement λ now fresh db.
    let entry : AuditLog = record {
      id = fresh;
      user_id = user_id;
      action = action;
      entity_type = entity_type;
      entity_id = entity_id;
      created_at = now;
    } in
    (tt, record db { audit_logs = db.audit_logs ++ entry ∷ [] })
