-- ===== src/Db/Contracts.antt =====
-- src/db/contracts.rs: one definition for each statement on the `contracts` table.
use text.Mathlib.Text.{◌==◌ as str_eq}
use legaltech_contract_autom.Common.{
  ℕ, ℤ, ◌+◌, ◌-◌, ◌*◌, String, Bool, true, false, not, ◌&&◌, Option, none, some, if◌then◌else◌,
  ◌==◌, ltb, List, [], ◌∷◌, ◌++◌, filter, find, any, count,
}
use legaltech_contract_autom.Db.Models.{
  Contract, AnalysisStatus, not_analyzed, pending, completed, failed,
}
use legaltech_contract_autom.Db.Session.{Db, DbError, statement}

abbrev pub is_pending_analysis : AnalysisStatus → Bool
is_pending_analysis pending = true
is_pending_analysis _ = false

abbrev pub is_completed : AnalysisStatus → Bool
is_completed completed = true
is_completed _ = false

-- UPDATE contracts SET change WHERE test
abbrev pub update_contracts :
    (Contract → Bool) → (Contract → Contract) → List Contract → List Contract
update_contracts test change [] = []
update_contracts test change (c ∷ cs) =
    (if test c then change c else c) ∷ update_contracts test change cs

unfoldable pub new_contract : (now fresh user_id : ℕ) (title raw_text : String) → Contract
new_contract now fresh user_id title raw_text = record {
  id = fresh;
  user_id = user_id;
  title = title;
  raw_text = raw_text;
  start_date = none;
  end_date = none;
  risk_level = none;
  risk_score = none;
  risk_summary = none;
  content_version = 1;
  analysis_status = not_analyzed;
  analyzed_at = none;
  analyzed_content_version = none;
  analysis_provider = none;
  analysis_model = none;
  analysis_prompt_version = none;
  analysis_error = none;
  created_at = now;
  updated_at = now;
}

unfoldable pub insert_contract : ℕ → String → String → Db DbError Contract
unfolding new_contract
insert_contract user_id title raw_text = statement λ now fresh db.
    let c = new_contract now fresh user_id title raw_text in
    (c, record db { contracts = db.contracts ++ c ∷ [] })

-- WHERE id = $1 AND user_id = $2
unfoldable pub is_of_user : ℕ → ℕ → Contract → Bool
is_of_user id user_id c = c.id == id && c.user_id == user_id

unfoldable pub find_contract_for_user : ℕ → ℕ → Db DbError (Option Contract)
unfolding is_of_user
find_contract_for_user id user_id =
    statement λ now fresh db. (find (is_of_user id user_id) db.contracts, db)

-- COALESCE($n, column)
abbrev pub coalesce : Option String → String → String
coalesce none old = old
coalesce (some new) old = new

-- $4 IS NOT NULL AND $4 IS DISTINCT FROM raw_text
abbrev pub changes_text : Option String → String → Bool
changes_text none old = false
changes_text (some new) old = not (str_eq new old)

unfoldable pub edited_contract : ℕ → Option String → Option String → Contract → Contract
edited_contract now title raw_text c =
    let changed = changes_text raw_text c.raw_text in
    record c {
      title = coalesce title c.title;
      raw_text = coalesce raw_text c.raw_text;
      content_version = (if changed then c.content_version + 1 else c.content_version);
      analysis_status = (if changed then not_analyzed else c.analysis_status);
      updated_at = now;
    }

-- UPDATE ... RETURNING: the first row that the test picks, as it stands afterwards.
abbrev pub returning : (Contract → Bool) → (Contract → Contract) → List Contract → Option Contract
returning test change cs = elim (find test cs) [ none ↦ none | some c ↦ some (change c) ]

unfoldable pub update_contract :
    ℕ → ℕ → Option String → Option String → Db DbError (Option Contract)
unfolding is_of_user edited_contract
update_contract id user_id title raw_text = statement λ now fresh db. (
  returning (is_of_user id user_id) (edited_contract now title raw_text) db.contracts,
  record db {
    contracts =
        update_contracts (is_of_user id user_id) (edited_contract now title raw_text) db.contracts;
  },
)

-- The ON DELETE CASCADE of the tables that reference a contract.
unfoldable pub delete_contract : ℕ → ℕ → Db DbError Bool
unfolding is_of_user
delete_contract id user_id = statement λ now fresh db.
    let deleted = any (is_of_user id user_id) db.contracts in
    (
      deleted,
      (if deleted
          then record db {
            contracts = filter (λ c. not (is_of_user id user_id c)) db.contracts;
            reminders = filter (λ r. not (r.contract_id == id)) db.reminders;
            obligations = filter (λ o. not (o.contract_id == id)) db.obligations;
            risks = filter (λ r. not (r.contract_id == id)) db.risks;
          }
          else db),
    )

unfoldable pub count_contracts_for_user : ℕ → Db DbError ℕ
count_contracts_for_user user_id =
    statement λ now fresh db. (count (λ c. c.user_id == user_id) db.contracts, db)

-- WHERE id = $1 AND user_id = $2 AND content_version = $3 AND analysis_status <> 'pending'
unfoldable pub is_claimable : ℕ → ℕ → ℕ → Contract → Bool
is_claimable id user_id version c =
    c.id == id
    && c.user_id == user_id
    && c.content_version == version
    && not (is_pending_analysis c.analysis_status)

unfoldable pub claimed_contract : ℕ → Contract → Contract
claimed_contract now c = record c {
  analysis_status = pending;
  analysis_error = none;
  updated_at = now;
}

unfoldable pub claim_analysis : ℕ → ℕ → ℕ → Db DbError Bool
unfolding is_claimable claimed_contract
claim_analysis id user_id version = statement λ now fresh db. (
  any (is_claimable id user_id version) db.contracts,
  record db {
    contracts =
        update_contracts (is_claimable id user_id version) (claimed_contract now) db.contracts;
  },
)

-- WHERE analysis_status = 'pending' AND updated_at < NOW() - make_interval(secs => $1)
unfoldable pub is_stuck : ℕ → ℕ → Contract → Bool
is_stuck now stale_seconds c =
    is_pending_analysis c.analysis_status && ltb c.updated_at (now - stale_seconds * 1_000_000)

unfoldable pub unstuck_contract : ℕ → Contract → Contract
unstuck_contract now c = record c {
  analysis_status = not_analyzed;
  analysis_error = some "analysis_recovered_stale";
  updated_at = now;
}

unfoldable pub recover_stale_pending_analyses : (stale_seconds : ℕ) → Db DbError ℕ
unfolding is_stuck unstuck_contract
recover_stale_pending_analyses stale_seconds = statement λ now fresh db. (
  count (is_stuck now stale_seconds) db.contracts,
  record db {
    contracts = update_contracts (is_stuck now stale_seconds) (unstuck_contract now) db.contracts;
  },
)

-- WHERE id = $1 AND content_version = $2
unfoldable pub is_at_version : ℕ → ℕ → Contract → Bool
is_at_version id version c = c.id == id && c.content_version == version

unfoldable pub failed_contract : ℕ → String → Contract → Contract
failed_contract now reason c = record c {
  analysis_status = failed;
  analysis_error = some reason;
  updated_at = now;
}

unfoldable pub mark_analysis_failed : ℕ → ℕ → String → Db DbError (Unit {0})
unfolding is_at_version failed_contract
mark_analysis_failed id version reason = statement λ now fresh db. (
  tt,
  record db {
    contracts =
        update_contracts (is_at_version id version) (failed_contract now reason) db.contracts;
  },
)

-- The columns that `complete_analysis` binds.
pub record AnalysisColumns : Type 0 where
  pub start_date : Option ℕ
  pub end_date : Option ℕ
  pub risk_level : Option String
  pub risk_score : Option ℤ
  pub risk_summary : Option String
  pub provider : String
  pub model : String
  pub prompt_version : ℕ

unfoldable pub completed_contract : ℕ → ℕ → AnalysisColumns → Contract → Contract
completed_contract now version a c = record c {
  start_date = a.start_date;
  end_date = a.end_date;
  risk_level = a.risk_level;
  risk_score = a.risk_score;
  risk_summary = a.risk_summary;
  analysis_status = completed;
  analyzed_at = some now;
  analyzed_content_version = some version;
  analysis_provider = some a.provider;
  analysis_model = some a.model;
  analysis_prompt_version = some a.prompt_version;
  analysis_error = none;
  updated_at = now;
}

unfoldable pub complete_analysis : ℕ → ℕ → AnalysisColumns → Db DbError (Option Contract)
unfolding is_at_version completed_contract
complete_analysis id version a = statement λ now fresh db. (
  returning (is_at_version id version) (completed_contract now version a) db.contracts,
  record db {
    contracts =
        update_contracts (is_at_version id version) (completed_contract now version a) db.contracts;
  },
)
