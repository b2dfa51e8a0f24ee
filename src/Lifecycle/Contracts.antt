-- ===== src/Lifecycle/Contracts.antt =====
-- The statements on `contracts` and the rows that hang on it (src/db/contracts.rs, risks.rs,
-- obligations.rs, audit.rs) keep every row valid.
use legaltech_contract_autom.Common.{
  ℕ, ◌+◌, String, true, ◌≡◌, refl, Option, none, some, All-filter, any, arith, Bool-cases, inl, inr,
}
use legaltech_contract_autom.Db.Models.{Contract}
use legaltech_contract_autom.Db.Preservation.{Keeps-statement}
use legaltech_contract_autom.Db.Contracts.{
  AnalysisColumns, new_contract, insert_contract, is_of_user, find_contract_for_user, changes_text,
  edited_contract, update_contract, delete_contract, claimed_contract, claim_analysis,
  unstuck_contract, recover_stale_pending_analyses, is_at_version, failed_contract,
  mark_analysis_failed, completed_contract, complete_analysis,
}
use legaltech_contract_autom.Db.Details.{delete_obligations_for_contract}
use legaltech_contract_autom.Lifecycle.{ReminderIsValid, ContractIsValid, IsValid, is_past}
use legaltech_contract_autom.Lifecycle.Rows.{All-update_contracts, All-concat}
use legaltech_contract_autom.Lifecycle.Reminders.{KeepsValid}

new_contract-IsValid :
    (now fresh user_id : ℕ) (title raw_text : String)
    → ContractIsValid (new_contract now fresh user_id title raw_text)
unfolding new_contract
new_contract-IsValid now fresh user_id title raw_text = record {
  positive = omega arith;
  past = refl;
  current = refl;
}

is_past-suc : (o : Option ℕ) (n : ℕ) → is_past o n ≡ true → is_past o (n + 1) ≡ true
is_past-suc none n h = refl
is_past-suc (some v) n h = ground arith

edited_contract-IsValid :
    (now : ℕ) (title raw_text : Option String) (c : Contract)
    → ContractIsValid c
    → ContractIsValid (edited_contract now title raw_text c)
unfolding edited_contract
edited_contract-IsValid now title raw_text c v =
    elim (Bool-cases (changes_text raw_text c.raw_text)) [
      | inl e ↦ rw e (record {
        positive = omega (arith, v.positive);
        past = is_past-suc c.analyzed_content_version c.content_version v.past;
        current = refl;
      })
      | inr e ↦ rw e (record { positive = v.positive; past = v.past; current = v.current })
    ]

claimed_contract-IsValid :
    (now : ℕ) (c : Contract) → ContractIsValid c → ContractIsValid (claimed_contract now c)
unfolding claimed_contract
claimed_contract-IsValid now c v = record { positive = v.positive; past = v.past; current = refl }

unstuck_contract-IsValid :
    (now : ℕ) (c : Contract) → ContractIsValid c → ContractIsValid (unstuck_contract now c)
unfolding unstuck_contract
unstuck_contract-IsValid now c v = record { positive = v.positive; past = v.past; current = refl }

failed_contract-IsValid :
    (now : ℕ) (reason : String) (c : Contract)
    → ContractIsValid c
    → ContractIsValid (failed_contract now reason c)
unfolding failed_contract
failed_contract-IsValid now reason c v = record {
  positive = v.positive;
  past = v.past;
  current = refl;
}

-- The analysis is stored only on the version that was analyzed.
completed_contract-IsValid :
    (now id version : ℕ) (a : AnalysisColumns) (c : Contract)
    → ContractIsValid c
    → is_at_version id version c ≡ true
    → ContractIsValid (completed_contract now version a c)
unfolding completed_contract is_at_version
completed_contract-IsValid now id version a c v h = record {
  positive = v.positive;
  past = ground arith;
  current = ground arith;
}

module _ (id user_id : ℕ) where
  pub insert_contract-Keeps :
      (title raw_text : String) → KeepsValid (insert_contract user_id title raw_text)
  unfolding insert_contract
  insert_contract-Keeps title raw_text = Keeps-statement IsValid _ λ now fresh db v. record {
    reminders = v.reminders;
    contracts =
        All-concat ContractIsValid db.contracts _ v.contracts
          (new_contract-IsValid now fresh user_id title raw_text);
  }

  pub find_contract_for_user-Keeps : KeepsValid (find_contract_for_user id user_id)
  unfolding find_contract_for_user
  find_contract_for_user-Keeps = Keeps-statement IsValid _ (λ now fresh db v. v)

  pub update_contract-Keeps :
      (title raw_text : Option String) → KeepsValid (update_contract id user_id title raw_text)
  unfolding update_contract
  update_contract-Keeps title raw_text = Keeps-statement IsValid _ λ now fresh db v. record {
    reminders = v.reminders;
    contracts =
        All-update_contracts ContractIsValid _ (edited_contract now title raw_text) _
          (λ c h e. edited_contract-IsValid now title raw_text c h) v.contracts;
  }

  pub delete_contract-Keeps : KeepsValid (delete_contract id user_id)
  unfolding delete_contract
  delete_contract-Keeps = Keeps-statement IsValid _ λ now fresh db v.
      elim (Bool-cases (any (is_of_user id user_id) db.contracts)) [
        | inl e ↦ rw e (record {
          reminders = All-filter ReminderIsValid _ _ v.reminders;
          contracts = All-filter ContractIsValid _ _ v.contracts;
        })
        | inr e ↦ rw e v
      ]

  pub claim_analysis-Keeps : (version : ℕ) → KeepsValid (claim_analysis id user_id version)
  unfolding claim_analysis
  claim_analysis-Keeps version = Keeps-statement IsValid _ λ now fresh db v. record {
    reminders = v.reminders;
    contracts =
        All-update_contracts ContractIsValid _ (claimed_contract now) _
          (λ c h e. claimed_contract-IsValid now c h) v.contracts;
  }

pub recover_stale_pending_analyses-Keeps :
    (stale_seconds : ℕ) → KeepsValid (recover_stale_pending_analyses stale_seconds)
unfolding recover_stale_pending_analyses
recover_stale_pending_analyses-Keeps stale_seconds = Keeps-statement IsValid _ λ now fresh db v.
    record {
      reminders = v.reminders;
      contracts =
          All-update_contracts ContractIsValid _ (unstuck_contract now) _
            (λ c h e. unstuck_contract-IsValid now c h) v.contracts;
    }

pub mark_analysis_failed-Keeps :
    (id version : ℕ) (reason : String) → KeepsValid (mark_analysis_failed id version reason)
unfolding mark_analysis_failed
mark_analysis_failed-Keeps id version reason = Keeps-statement IsValid _ λ now fresh db v. record {
  reminders = v.reminders;
  contracts =
      All-update_contracts ContractIsValid _ (failed_contract now reason) _
        (λ c h e. failed_contract-IsValid now reason c h) v.contracts;
}

pub complete_analysis-Keeps :
    (id version : ℕ) (a : AnalysisColumns) → KeepsValid (complete_analysis id version a)
unfolding complete_analysis
complete_analysis-Keeps id version a = Keeps-statement IsValid _ λ now fresh db v. record {
  reminders = v.reminders;
  contracts =
      All-update_contracts ContractIsValid _ (completed_contract now version a) _
        (λ c h e. completed_contract-IsValid now id version a c h e) v.contracts;
}

pub delete_obligations-Keeps :
    (contract_id : ℕ) → KeepsValid (delete_obligations_for_contract contract_id)
unfolding delete_obligations_for_contract
delete_obligations-Keeps contract_id = Keeps-statement IsValid _ λ now fresh db v. record {
  reminders = All-filter ReminderIsValid _ _ v.reminders;
  contracts = v.contracts;
}
