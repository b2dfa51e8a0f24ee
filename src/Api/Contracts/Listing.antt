-- ===== src/Api/Contracts/Listing.antt =====
-- src/api/contracts.rs, src/services/contracts.rs and src/db/contracts.rs: the list of contracts.
-- `title_le` is the collation of the database. NULL dates come last going up, first going down.
use legaltech_contract_autom.Common.{
  ℕ, String, Bool, true, false, Option, none, some, ◌==◌, leb, List, filter, take, drop, sort_by,
}
use legaltech_contract_autom.Errors.{AppError}
use legaltech_contract_autom.Db.Models.{Contract}
use legaltech_contract_autom.Db.Contracts.{count_contracts_for_user}
use legaltech_contract_autom.Db.Session.{Db, DbError, statement, pure, ◌>>=◌}
use legaltech_contract_autom.Reminders.Service.{sql}
use legaltech_contract_autom.Services.Contracts.{SortField, SortDirection, asc, desc}
use legaltech_contract_autom.Auth.Extractor.{AuthenticatedUser}
use legaltech_contract_autom.Auth.Handlers.{from_result}
use legaltech_contract_autom.Api.Requests.{offset_of, from_query}
use legaltech_contract_autom.Api.Contracts.Query.{ListQueryRaw, parse_contract_query}

-- NULLs are the largest.
abbrev pub date_le : Option ℕ → Option ℕ → Bool
date_le a none = true
date_le none (some b) = false
date_le (some a) (some b) = leb a b

module _ (title_le : String → String → Bool) where
  unfoldable pub field_le : SortField → Contract → Contract → Bool
  field_le SortField.created_at a b = leb a.created_at b.created_at
  field_le SortField.updated_at a b = leb a.updated_at b.updated_at
  field_le SortField.end_date a b = date_le a.end_date b.end_date
  field_le SortField.title a b = title_le a.title b.title

  unfoldable pub ordered_by : SortField → SortDirection → Contract → Contract → Bool
  unfolding field_le
  ordered_by field asc a b = field_le field a b
  ordered_by field desc a b = field_le field b a

  unfoldable pub list_contracts_for_user :
      (user_id limit offset : ℕ) → SortField → SortDirection → Db DbError (List Contract)
  unfolding ordered_by
  list_contracts_for_user user_id limit offset field direction = statement λ now fresh db. (
    take limit (
        drop offset
          (sort_by (ordered_by field direction) (filter (λ c. c.user_id == user_id) db.contracts))),
    db,
  )

  unfoldable pub list_contracts :
      (user_id page limit : ℕ) → SortField → SortDirection → Db AppError (List Contract × ℕ)
  unfolding list_contracts_for_user
  list_contracts user_id page limit field direction = do
    rows ← sql (list_contracts_for_user user_id limit (offset_of page limit) field direction)
    total ← sql (count_contracts_for_user user_id)
    pure (rows, total)

pub record PaginatedContracts : Type 0 where
  pub items : List Contract
  pub page : ℕ
  pub limit : ℕ
  pub total : ℕ

module _ (title_le : String → String → Bool) where
  -- The items are summaries of the rows.
  unfoldable pub list_contracts_route :
      AuthenticatedUser → (query : Option ListQueryRaw) → Db AppError PaginatedContracts
  unfolding list_contracts
  list_contracts_route auth query = do
    raw ← from_result (from_query query)
    parsed ← from_result (parse_contract_query raw)
    (rows, total) ←
        list_contracts title_le auth.user_id parsed.page parsed.limit parsed.sort parsed.direction
    pure (record { items = rows; page = parsed.page; limit = parsed.limit; total = total })
