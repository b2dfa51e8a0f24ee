-- ===== src/Api/Requests.antt =====
-- src/api/channels.rs, src/api/reminders.rs, src/api/contracts.rs: what the handlers share, which is
-- the mapping of rejections and the page of a list.
pub mod Bounds
use Prim.Native.String.{◌++◌ as str_append}
use legaltech_contract_autom.Common.{
  ℕ, ◌-◌, ◌^◌, ◌≤◌, ◌<◌, ◌*◌, ◌≡◌, String, Bool, true, false, Option, none, some, if◌then◌else◌,
  ◌==◌, ltb, leb, Result, ok, err, ◌>>=◌, >>=-eq-ok, show, Bool-cases, inl, inr, arith,
}
use legaltech_contract_autom.Common.Texts.{parse_unsigned}
use legaltech_contract_autom.Errors.{AppError, validation, payload_too_large, unprocessable_entity}

-- axum's JsonRejection, as far as it is asked.
pub record JsonRejection : Type 0 where
  pub status : ℕ
  pub body_text : String

unfoldable pub map_json_rejection : JsonRejection → AppError
map_json_rejection e =
    if e.status == 413
    then payload_too_large
    else if e.status == 422
    then unprocessable_entity e.body_text
    else validation e.body_text

-- map_err(map_json_rejection)
abbrev pub from_json : {A : Type 0} → Result JsonRejection A → Result AppError A
from_json (ok a) = ok a
from_json (err e) = err (map_json_rejection e)

-- map_path_rejection
abbrev pub from_path : Option ℕ → Result AppError ℕ
from_path (some id) = ok id
from_path none = err (validation "path parameter must be a valid UUID")

-- map_query_rejection
abbrev pub from_query : {A : Type 0} → Option A → Result AppError A
from_query (some a) = ok a
from_query none = err (validation "invalid query string")

pub record ListQueryRaw : Type 0 where
  pub page : Option String
  pub limit : Option String

pub record ParsedListQuery : Type 0 where
  pub page : ℕ
  pub limit : ℕ

abbrev pub number_or : (default : ℕ) (problem : String) → Option String → Result AppError ℕ
number_or default problem none = ok default
number_or default problem (some s) = elim (parse_unsigned (2 ^ 32 - 1) s) [
  | none ↦ err (validation problem)
  | some n ↦ ok n
]

-- The limits of channels, and DEFAULT_PAGE_LIMIT and MAX_PAGE_LIMIT of src/services/contracts.rs.
abbrev pub default_page_limit : ℕ
default_page_limit = 20

abbrev pub max_page_limit : ℕ
max_page_limit = 100

unfoldable pub parse_page : Option String → Result AppError ℕ
parse_page raw = do
  page ← number_or 1 "`page` must be a positive integer" raw
  if page == 0 then err (validation "`page` must be >= 1") else ok page

-- With the limit that stands when there is none, and the largest one.
unfoldable pub parse_limit : (default most : ℕ) → Option String → Result AppError ℕ
parse_limit default most raw = do
  limit ← number_or default "`limit` must be a positive integer" raw
  if limit == 0
      then err (validation "`limit` must be >= 1")
      else if ltb most limit
      then err (validation (str_append "`limit` must be <= " (show most)))
      else ok limit

-- That of src/api/channels.rs.
unfoldable pub parse_list_query : ListQueryRaw → Result AppError ParsedListQuery
unfolding parse_page parse_limit
parse_list_query raw = do
  page ← parse_page raw.page
  limit ← parse_limit default_page_limit max_page_limit raw.limit
  ok (record { page = page; limit = limit })

-- i64::from(page.saturating_sub(1)) * limit
abbrev pub offset_of : (page limit : ℕ) → ℕ
offset_of page limit = (page - 1) * limit
