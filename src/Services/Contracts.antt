-- ===== src/Services/Contracts.antt =====
-- src/services/contracts.rs: validation and orchestration of contract edits.
use Prim.Native.String.{len, ◌++◌ as str_append}
use legaltech_contract_autom.Common.{
  ℕ, ◌*◌, String, Option, some, is_some, ltb, Result, ok, err, ◌||◌, if◌then◌else◌, show,
}
use legaltech_contract_autom.Common.Texts.{trim, is_empty, any_char, is_control}
use legaltech_contract_autom.Errors.{AppError, validation, not_found, database}
use legaltech_contract_autom.Db.Models.{Contract}
use legaltech_contract_autom.Db.Session.{Db, transaction, pure, ◌>>=◌, ◌>>◌}
use legaltech_contract_autom.Db.Contracts.{
  insert_contract, find_contract_for_user, update_contract, delete_contract,
}
use legaltech_contract_autom.Db.Details.{insert_audit}
use legaltech_contract_autom.Reminders.Service.{sql, ok_or, require}

pub data SortField : Type 0 where
  created_at updated_at end_date title : SortField

unfoldable pub as_sql_field : SortField → String
as_sql_field created_at = "created_at"
as_sql_field updated_at = "updated_at"
as_sql_field end_date = "end_date"
as_sql_field title = "title"

pub data SortDirection : Type 0 where
  asc desc : SortDirection

unfoldable pub as_sql_direction : SortDirection → String
as_sql_direction asc = "ASC"
as_sql_direction desc = "DESC"

abbrev pub max_title_bytes : ℕ
max_title_bytes = 500

abbrev pub max_raw_text_bytes : ℕ
max_raw_text_bytes = 1024 * 1024

unfoldable pub validate_title : String → Result AppError String
unfolding trim any_char is_control
validate_title raw =
    let trimmed = trim raw in
    if is_empty trimmed
    then err (validation "title must not be empty")
    else if ltb max_title_bytes (len trimmed)
    then err (
        validation
          (str_append (str_append "title must be at most " (show max_title_bytes)) " bytes"))
    else if any_char is_control trimmed
    then err (validation "title must not contain control characters")
    else ok trimmed

unfoldable pub validate_raw_text : String → Result AppError (Unit {0})
unfolding trim
validate_raw_text raw =
    if is_empty (trim raw)
    then err (validation "raw_text must not be empty")
    else if ltb max_raw_text_bytes (len raw)
    then err (
        validation
          (str_append (str_append "raw_text must be at most " (show max_raw_text_bytes)) " bytes"))
    else ok tt

unfoldable pub create : (user_id : ℕ) (title raw_text : String) → Db AppError Contract
create user_id new_title raw_text =
    transaction (λ e. database)
      do
        c ← sql (insert_contract user_id new_title raw_text)
        sql (insert_audit (some user_id) "contract_created" "contract" (some c.id))
        pure c

unfoldable pub get_contract : (user_id contract_id : ℕ) → Db AppError Contract
get_contract user_id contract_id = do
  found ← sql (find_contract_for_user contract_id user_id)
  ok_or (not_found "contract") found

unfoldable pub update :
    (user_id contract_id : ℕ) → (title raw_text : Option String) → Db AppError Contract
update user_id contract_id new_title raw_text = do
  require (is_some new_title || is_some raw_text)
      (validation "at least one of `title` or `raw_text` is required")
  transaction (λ e. database)
      do
        changed ← sql (update_contract contract_id user_id new_title raw_text)
        updated ← ok_or (not_found "contract") changed
        sql (insert_audit (some user_id) "contract_updated" "contract" (some updated.id))
        pure updated

unfoldable pub delete : (user_id contract_id : ℕ) → Db AppError (Unit {0})
delete user_id contract_id =
    transaction (λ e. database)
      do
        deleted ← sql (delete_contract contract_id user_id)
        require deleted (not_found "contract")
        sql (insert_audit (some user_id) "contract_deleted" "contract" (some contract_id))
