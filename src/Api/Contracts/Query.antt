-- ===== src/Api/Contracts/Query.antt =====
-- src/api/contracts.rs: the query of the list of contracts.
use Prim.Native.String.{◌++◌ as str_append}
use text.Mathlib.Text.{◌==◌ as str_eq}
use legaltech_contract_autom.Common.{
  ℕ, String, Option, none, some, if◌then◌else◌, Result, ok, err, ◌>>=◌,
}
use legaltech_contract_autom.Errors.{AppError, validation}
use legaltech_contract_autom.Services.Contracts.{SortField, SortDirection, asc, desc}
use legaltech_contract_autom.Api.Requests.{
  parse_page, parse_limit, default_page_limit, max_page_limit,
}

pub record ListQueryRaw : Type 0 where
  pub page : Option String
  pub limit : Option String
  pub sort : Option String
  pub order : Option String

pub record ParsedListQuery : Type 0 where
  pub page : ℕ
  pub limit : ℕ
  pub sort : SortField
  pub direction : SortDirection

unfoldable pub parse_sort : Option String → Result AppError SortField
parse_sort none = ok SortField.created_at
parse_sort (some s) =
    if str_eq s "created_at"
    then ok SortField.created_at
    else if str_eq s "updated_at"
    then ok SortField.updated_at
    else if str_eq s "end_date"
    then ok SortField.end_date
    else if str_eq s "title"
    then ok SortField.title
    else err (
        validation (
          str_append "`sort` must be one of: created_at, updated_at, end_date, title (got `"
            (str_append s "`)")))

unfoldable pub parse_order : Option String → Result AppError SortDirection
parse_order none = ok desc
parse_order (some s) =
    if str_eq s "desc"
    then ok desc
    else if str_eq s "asc"
    then ok asc
    else err (validation (str_append "`order` must be `asc` or `desc` (got `" (str_append s "`)")))

unfoldable pub parse_contract_query : ListQueryRaw → Result AppError ParsedListQuery
unfolding parse_page parse_limit parse_sort parse_order
parse_contract_query raw = do
  page ← (parse_page raw.page)
  limit ← (parse_limit default_page_limit max_page_limit raw.limit)
  sort ← (parse_sort raw.sort)
  direction ← (parse_order raw.order)
  ok (record { page = page; limit = limit; sort = sort; direction = direction })
