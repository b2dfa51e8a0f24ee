-- ===== src/Lifecycle/Service.antt =====
-- The operations of src/reminders/service.rs and src/services/contracts.rs keep every row valid.
use legaltech_contract_autom.Common.{
  ℕ, suc, String, Bool, true, false, Option, none, some, option_eq, List, [], ◌∷◌,
}
use legaltech_contract_autom.Errors.{AppError, database, conflict}
use legaltech_contract_autom.Db.Models.{Reminder}
use legaltech_contract_autom.Db.Session.{Db, DbError, transaction, ◌>>=◌}
use legaltech_contract_autom.Db.Preservation.{
  Keeps-pure, Keeps-throw, Keeps-statement, Keeps-bind, Keeps-map_err, Keeps-transaction,
}
use legaltech_contract_autom.Db.Reminders.{contract_owned_by, find_reminder_for_user}
use legaltech_contract_autom.Db.Contracts.{is_completed}
use legaltech_contract_autom.Db.Details.{
  list_obligations_for_contract, obligation_exists, insert_audit,
}
use legaltech_contract_autom.Reminders.Types.{ChannelType}
use legaltech_contract_autom.Reminders.Service.{
  sql, ok_or, require, Target, targets, insert_targets, count_custom, replace_system_reminders,
  regenerate_system_reminders, check_obligation, create_custom, cancel,
}
use legaltech_contract_autom.Services.Contracts.{create, update, delete}
use legaltech_contract_autom.Lifecycle.{IsValid}
use legaltech_contract_autom.Lifecycle.Reminders.{
  KeepsValid, delete_pending_system_reminders-Keeps, insert_system_reminder-Keeps,
  insert_custom_reminder-Keeps, cancel_reminder_for_user-Keeps,
}
use legaltech_contract_autom.Lifecycle.Contracts.{
  insert_contract-Keeps, find_contract_for_user-Keeps, update_contract-Keeps, delete_contract-Keeps,
}

-- The ways in which a block is put together.
pub Keeps-then :
    {E A B : Type 0} (m : Db E A) (f : A → Db E B)
    → KeepsValid m
    → ((a : A) → KeepsValid (f a))
    → KeepsValid (m >>= f)
Keeps-then m f = Keeps-bind IsValid m f

pub Keeps-sql : {A : Type 0} (m : Db DbError A) → KeepsValid m → KeepsValid (sql m)
Keeps-sql m = Keeps-map_err IsValid (λ e. database) m

pub ok_or-Keeps : {A : Type 0} (e : AppError) (o : Option A) → KeepsValid (ok_or e o)
ok_or-Keeps e none = Keeps-throw IsValid _
ok_or-Keeps e (some a) = Keeps-pure IsValid a

pub require-Keeps : (b : Bool) (e : AppError) → KeepsValid (require b e)
require-Keeps true e = Keeps-pure IsValid tt
require-Keeps false e = Keeps-throw IsValid e

pub Keeps-atomic :
    {A : Type 0} (body : Db AppError A)
    → KeepsValid body
    → KeepsValid (transaction (λ e. database) body)
Keeps-atomic body = Keeps-transaction IsValid (λ e. database) body

pub insert_audit-Keeps :
    (user_id : Option ℕ) (action entity_type : String) (entity_id : Option ℕ)
    → KeepsValid (insert_audit user_id action entity_type entity_id)
unfolding insert_audit
insert_audit-Keeps user_id action entity_type entity_id =
    Keeps-statement IsValid _
      (λ now fresh db v. record { reminders = v.reminders; contracts = v.contracts })

contract_owned_by-Keeps :
    (contract_id user_id : ℕ) → KeepsValid (contract_owned_by contract_id user_id)
unfolding contract_owned_by
contract_owned_by-Keeps contract_id user_id = Keeps-statement IsValid _ (λ now fresh db v. v)

find_reminder_for_user-Keeps :
    (reminder_id user_id : ℕ) → KeepsValid (find_reminder_for_user reminder_id user_id)
unfolding find_reminder_for_user
find_reminder_for_user-Keeps reminder_id user_id = Keeps-statement IsValid _ (λ now fresh db v. v)

list_obligations-Keeps : (contract_id : ℕ) → KeepsValid (list_obligations_for_contract contract_id)
unfolding list_obligations_for_contract
list_obligations-Keeps contract_id = Keeps-statement IsValid _ (λ now fresh db v. v)

obligation_exists-Keeps :
    (obligation_id contract_id : ℕ) → KeepsValid (obligation_exists obligation_id contract_id)
unfolding obligation_exists
obligation_exists-Keeps obligation_id contract_id = Keeps-statement IsValid _ (λ now fresh db v. v)

count_custom-Keeps : (contract_id : ℕ) → KeepsValid (count_custom contract_id)
unfolding count_custom
count_custom-Keeps contract_id = Keeps-statement IsValid _ (λ now fresh db v. v)

inserted-Keeps :
    {E A : Type 0} (o : Option Reminder) (m n : Db E A)
    → KeepsValid m
    → KeepsValid n
    → KeepsValid (elim o [ some r ↦ m | none ↦ n ])
inserted-Keeps (some r) m n h k = h
inserted-Keeps none m n h k = k

insert_targets-Keeps :
    (contract_id version : ℕ) (ts : List Target) (created skipped : ℕ)
    → KeepsValid (insert_targets contract_id version ts created skipped)
unfolding insert_targets
insert_targets-Keeps contract_id version [] created skipped = Keeps-pure IsValid _
insert_targets-Keeps contract_id version (t ∷ ts) created skipped =
    Keeps-then _ _
      (Keeps-sql _ (
        insert_system_reminder-Keeps contract_id t.obligation_id t.reminder_date t.reminder_type _
          version))
      (λ inserted.
        inserted-Keeps inserted _ _
          (insert_targets-Keeps contract_id version ts (suc created) skipped)
          (insert_targets-Keeps contract_id version ts created (suc skipped)))

replace_system_reminders-Keeps :
    (user_id contract_id version : ℕ) (ts : List Target)
    → KeepsValid (replace_system_reminders user_id contract_id version ts)
unfolding replace_system_reminders
replace_system_reminders-Keeps user_id contract_id version ts =
    Keeps-then _ _ (Keeps-sql _ (delete_pending_system_reminders-Keeps contract_id)) λ deleted.
      Keeps-then _ _ (insert_targets-Keeps contract_id version ts 0 0) λ counts.
        Keeps-then _ _ (Keeps-sql _ (count_custom-Keeps contract_id)) λ custom.
          Keeps-then _ _ (Keeps-sql _ (insert_audit-Keeps _ _ _ _)) λ _. Keeps-pure IsValid _

pub regenerate-Keeps :
    (today user_id contract_id : ℕ)
    → KeepsValid (regenerate_system_reminders today user_id contract_id)
unfolding regenerate_system_reminders
regenerate-Keeps today user_id contract_id =
    Keeps-then _ _ (Keeps-sql _ (find_contract_for_user-Keeps contract_id user_id)) λ found.
      Keeps-then _ _ (ok_or-Keeps _ found) λ c.
        Keeps-then _ _
          (require-Keeps (is_completed c.analysis_status)
            (conflict "contract analysis must be completed before reminders can be generated"))
          λ _.
            Keeps-then _ _
              (require-Keeps (option_eq c.analyzed_content_version (some c.content_version)) (
                conflict "contract analysis is stale; re-run analysis before generating reminders"))
              λ _. Keeps-then _ _ (Keeps-sql _ (list_obligations-Keeps contract_id)) λ obligations.
                Keeps-atomic _ (
                  replace_system_reminders-Keeps user_id contract_id c.content_version
                    (targets today c obligations))

check_obligation-Keeps :
    (contract_id : ℕ) (o : Option ℕ) → KeepsValid (check_obligation contract_id o)
unfolding check_obligation
check_obligation-Keeps contract_id none = Keeps-pure IsValid tt
check_obligation-Keeps contract_id (some id) =
    Keeps-then _ _ (Keeps-sql _ (obligation_exists-Keeps id contract_id))
      λ exists. require-Keeps exists _

pub create_custom-Keeps :
    (user_id contract_id : ℕ) (obligation_id : Option ℕ) (date : ℕ) (channel : ChannelType)
    → KeepsValid (create_custom user_id contract_id obligation_id date channel)
unfolding create_custom
create_custom-Keeps user_id contract_id obligation_id date channel =
    Keeps-then _ _ (Keeps-sql _ (contract_owned_by-Keeps contract_id user_id)) λ owned.
      Keeps-then _ _ (require-Keeps owned _) λ _.
        Keeps-then _ _ (check_obligation-Keeps contract_id obligation_id) λ _. Keeps-atomic _ (
          Keeps-then _ _
            (Keeps-sql _ (insert_custom_reminder-Keeps contract_id obligation_id date _))
            λ r.
              Keeps-then _ _ (Keeps-sql _ (insert_audit-Keeps _ _ _ _)) λ _. Keeps-pure IsValid _)

pub cancel-Keeps : (user_id reminder_id : ℕ) → KeepsValid (cancel user_id reminder_id)
unfolding cancel
cancel-Keeps user_id reminder_id =
    Keeps-then _ _ (Keeps-sql _ (find_reminder_for_user-Keeps reminder_id user_id)) λ found.
      Keeps-then _ _ (ok_or-Keeps _ found) λ existing. Keeps-then _ _ (require-Keeps _ _) λ _.
        Keeps-atomic _ (
          Keeps-then _ _ (Keeps-sql _ (cancel_reminder_for_user-Keeps reminder_id user_id))
            λ updated. Keeps-then _ _ (ok_or-Keeps _ updated) λ cancelled.
              Keeps-then _ _ (Keeps-sql _ (insert_audit-Keeps _ _ _ _)) λ _. Keeps-pure IsValid _)

pub create-Keeps :
    (user_id : ℕ) (title raw_text : String) → KeepsValid (create user_id title raw_text)
unfolding create
create-Keeps user_id title raw_text = Keeps-atomic _ (
    Keeps-then _ _ (Keeps-sql _ (insert_contract-Keeps 0 user_id title raw_text))
      λ c. Keeps-then _ _ (Keeps-sql _ (insert_audit-Keeps _ _ _ _)) λ _. Keeps-pure IsValid _)

pub update-Keeps :
    (user_id contract_id : ℕ) (title raw_text : Option String)
    → KeepsValid (update user_id contract_id title raw_text)
unfolding update
update-Keeps user_id contract_id title raw_text = Keeps-then _ _ (require-Keeps _ _) λ _.
    Keeps-atomic _ (
      Keeps-then _ _ (Keeps-sql _ (update_contract-Keeps contract_id user_id title raw_text))
        λ changed. Keeps-then _ _ (ok_or-Keeps _ changed) λ updated.
          Keeps-then _ _ (Keeps-sql _ (insert_audit-Keeps _ _ _ _)) λ _. Keeps-pure IsValid _)

pub delete-Keeps : (user_id contract_id : ℕ) → KeepsValid (delete user_id contract_id)
unfolding delete
delete-Keeps user_id contract_id = Keeps-atomic _ (
    Keeps-then _ _ (Keeps-sql _ (delete_contract-Keeps contract_id user_id)) λ deleted.
      Keeps-then _ _ (require-Keeps deleted _) λ _. Keeps-sql _ (insert_audit-Keeps _ _ _ _))
