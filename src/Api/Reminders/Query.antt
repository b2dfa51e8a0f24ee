-- ===== src/Api/Reminders/Query.antt =====
-- src/api/reminders.rs: the query of the list of reminders, with limits of its own.
use legaltech_contract_autom.Common.{ℕ, Result, ok, ◌>>=◌}
use legaltech_contract_autom.Errors.{AppError}
use legaltech_contract_autom.Api.Requests.{ListQueryRaw, ParsedListQuery, parse_page, parse_limit}

-- DEFAULT_PAGE_LIMIT and MAX_PAGE_LIMIT of src/reminders/service.rs
abbrev pub default_page_limit : ℕ
default_page_limit = 50

abbrev pub max_page_limit : ℕ
max_page_limit = 200

-- parse_list_query
unfoldable pub parse_reminder_query : ListQueryRaw → Result AppError ParsedListQuery
unfolding parse_page parse_limit
parse_reminder_query raw = do
  page ← parse_page raw.page
  limit ← parse_limit default_page_limit max_page_limit raw.limit
  ok (record { page = page; limit = limit })
