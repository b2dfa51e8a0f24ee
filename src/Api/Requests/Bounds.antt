-- ===== src/Api/Requests/Bounds.antt =====
-- src/api/reminders.rs, src/api/channels.rs, src/api/contracts.rs: the pages that a query can ask for.
use mathlib.Core.Path.{subst}
use native.Mathlib.Nat.{mul-le-mul}
use legaltech_contract_autom.Common.{
  ℕ, ◌-◌, ◌+◌, ◌^◌, ◌≤◌, ◌≡◌, String, Option, none, some, ok, err, >>=-eq-ok, Option-cases, inl,
  inr, arith,
}
use legaltech_contract_autom.Common.Texts.{parse_unsigned}
use legaltech_contract_autom.Errors.{validation}
use legaltech_contract_autom.Api.Requests.{
  number_or, parse_page, parse_limit, parse_list_query, ListQueryRaw, ParsedListQuery, offset_of,
}
use legaltech_contract_autom.Api.Reminders.Query.{parse_reminder_query}
use legaltech_contract_autom.Api.Contracts.Query
use legaltech_contract_autom.Api.Contracts.Query.{parse_contract_query, parse_sort, parse_order}

parse_unsigned-le : (most : ℕ) (s : String) (n : ℕ) → parse_unsigned most s ≡ some n → n ≤ most
unfolding parse_unsigned
parse_unsigned-le most s n e = ground arith

number_or-le :
    (default : ℕ) (problem : String) (o : Option String) (n : ℕ)
    → default ≤ 4_294_967_295
    → number_or default problem o ≡ ok n
    → n ≤ 4_294_967_295
number_or-le default problem none n d e = let same : default ≡ n = cc in omega arith
number_or-le default problem (some s) n d e = elim (Option-cases (parse_unsigned (2 ^ 32 - 1) s)) [
  | inl missed ↦ let e' : err (validation problem) ≡ ok n = rw (missed, number_or) at e in cc
  | inr (m, hit) ↦
      let same : m ≡ n = (let e' : ok m ≡ ok n = rw (hit, number_or) at e in cc) in
      let bound = parse_unsigned-le 4_294_967_295 s m hit in omega arith
]

parse_page-InRange :
    (o : Option String) (page : ℕ) → parse_page o ≡ ok page → (1 ≤ page) × (page ≤ 4_294_967_295)
unfolding parse_page
parse_page-InRange o page e =
    let q = >>=-eq-ok {A = ℕ} (number_or 1 "`page` must be a positive integer" o) _ e in
    let most = number_or-le 1 "`page` must be a positive integer" o q.0 (omega arith) q.1 in
    ground (arith, q.2, most)

parse_limit-InRange :
    (default most : ℕ) (o : Option String) (limit : ℕ)
    → parse_limit default most o ≡ ok limit
    → (1 ≤ limit) × (limit ≤ most)
unfolding parse_limit
parse_limit-InRange default most o limit e =
    let q = >>=-eq-ok {A = ℕ} (number_or default "`limit` must be a positive integer" o) _ e in
    ground (arith, q.2)

offset-le :
    (page limit : ℕ)
    → page ≤ 4_294_967_295
    → limit ≤ 200
    → offset_of page limit + limit ≤ 9_223_372_036_854_775_807
offset-le page limit p l =
    let before : page - 1 ≤ 4_294_967_294 = omega arith in
    let product = mul-le-mul before l in omega arith

unfoldable pub InRange : (most page limit : ℕ) → Type 0
InRange most page limit =
    (1 ≤ page)
    × (page ≤ 4_294_967_295)
    × (1 ≤ limit)
    × (limit ≤ most)
    × (offset_of page limit + limit ≤ 9_223_372_036_854_775_807)

page_limit-InRange :
    (default most page limit : ℕ) (p l : Option String)
    → most ≤ 200
    → parse_page p ≡ ok page
    → parse_limit default most l ≡ ok limit
    → InRange most page limit
unfolding InRange
page_limit-InRange default most page limit p l small ep el =
    let a = parse_page-InRange p page ep in
    let b = parse_limit-InRange default most l limit el in
    (a.0, a.1, b.0, b.1, offset-le page limit a.1 (omega (arith, b.1, small)))

-- A query of the list of channels that is read has a page and a limit in range, and the rows its page can ask for lie below
-- the largest 64-bit integer.
pub parse_list_query-InRange :
    (raw : ListQueryRaw) (q : ParsedListQuery)
    → parse_list_query raw ≡ ok q
    → InRange 100 q.page q.limit
unfolding parse_list_query
parse_list_query-InRange raw q e =
    let p = >>=-eq-ok (parse_page raw.page) _ e in
    let l = >>=-eq-ok (parse_limit 20 100 raw.limit) _ p.2 in
    let same : record { page = p.0; limit = l.0 } ≡ q = cc in
    subst (λ x. InRange 100 x.page x.limit) same
      (page_limit-InRange 20 100 p.0 l.0 raw.page raw.limit (omega arith) p.1 l.1)

-- A query of the list of contracts that is read has a page and a limit in range, and the rows its
-- page can ask for lie below the largest 64-bit integer.
pub parse_contract_query-InRange :
    (raw : Query.ListQueryRaw) (q : Query.ParsedListQuery)
    → parse_contract_query raw ≡ ok q
    → InRange 100 q.page q.limit
unfolding parse_contract_query
parse_contract_query-InRange raw q e =
    let p = >>=-eq-ok (parse_page raw.page) _ e in
    let l = >>=-eq-ok (parse_limit 20 100 raw.limit) _ p.2 in
    let s = >>=-eq-ok (parse_sort raw.sort) _ l.2 in
    let o = >>=-eq-ok (parse_order raw.order) _ s.2 in
    let same : record { page = p.0; limit = l.0; sort = s.0; direction = o.0 } ≡ q = cc in
    subst (λ x. InRange 100 x.page x.limit) same
      (page_limit-InRange 20 100 p.0 l.0 raw.page raw.limit (omega arith) p.1 l.1)

-- A query of the list of reminders that is read has a page of at least 1 and a limit from 1 to 200,
-- and the rows its page can ask for lie below the largest 64-bit integer.
pub parse_reminder_query-InRange :
    (raw : ListQueryRaw) (q : ParsedListQuery)
    → parse_reminder_query raw ≡ ok q
    → InRange 200 q.page q.limit
unfolding parse_reminder_query
parse_reminder_query-InRange raw q e =
    let p = >>=-eq-ok (parse_page raw.page) _ e in
    let l = >>=-eq-ok (parse_limit 50 200 raw.limit) _ p.2 in
    let same : record { page = p.0; limit = l.0 } ≡ q = cc in
    subst (λ x. InRange 200 x.page x.limit) same
      (page_limit-InRange 50 200 p.0 l.0 raw.page raw.limit (omega arith) p.1 l.1)
