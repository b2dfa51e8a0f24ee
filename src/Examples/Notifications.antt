-- ===== src/Examples/Notifications.antt =====
-- The gate and the senders at concrete inputs.
use legaltech_contract_autom.Common.{
  ℕ, ◌<◌, String, true, false, not, ◌≡◌, refl, Option, none, some, List, [], ◌∷◌, All, any, length,
  Result, ok, err, arith,
}
use legaltech_contract_autom.Notifications.Ssrf.{
  Ipv4Addr, SocketAddr, Host, domain, ipv6, v4, v6, Url, is_public, is_public_v4, scheme_ok,
  default_port, validate, validate_and_resolve,
}
use legaltech_contract_autom.Notifications.Ssrf.Ranges.{
  to_u32, within, blocked, is_public_v4-ranges,
}
use legaltech_contract_autom.Notifications.Ssrf.Gate.{
  Safe, mapped, forget, validate_and_resolve-Safe, validate-eq-forget, validate_and_resolve-mapped,
}
use legaltech_contract_autom.Notifications.Senders.{
  Request, Response, ReqwestError, webhook_request, send_webhook,
}
use legaltech_contract_autom.Notifications.Senders.Pinned.{send_webhook-pinned}
use legaltech_contract_autom.Examples.Data.{notice}

abbrev address : Ipv4Addr
address = record { a = 93; b = 184; c = 216; d = 34 }

abbrev inside : Ipv4Addr
inside = record { a = 10; b = 0; c = 0; d = 1 }

abbrev resolve : String → ℕ → Option (List SocketAddr)
resolve name port = some (record { ip = v4 address; port = port } ∷ [])

abbrev url_to : Host → Url
url_to host = record {
  scheme = "https";
  host = some host;
  host_str = some "example.com";
  port_or_known_default = some 443;
}

abbrev answers : List SocketAddr
answers = record { ip = v4 address; port = 443 } ∷ []

gate_opens : validate_and_resolve resolve (url_to (domain "example.com")) false ≡ ok answers
unfolding validate_and_resolve is_public is_public_v4
gate_opens = refl

validate_and_resolve-Safe_example :
    (scheme_ok "https" false ≡ true)
    × (0 < length answers)
    × All (λ (a : SocketAddr). is_public a.ip false ≡ true) answers
validate_and_resolve-Safe_example =
    validate_and_resolve-Safe resolve (url_to (domain "example.com")) false answers gate_opens

validate-eq-forget_example :
    validate resolve (url_to (domain "example.com")) false
    ≡ forget (validate_and_resolve resolve (url_to (domain "example.com")) false)
validate-eq-forget_example = validate-eq-forget resolve (url_to (domain "example.com")) false

validate_and_resolve-mapped_example :
    validate_and_resolve resolve (url_to (ipv6 (mapped inside))) false
    ≡ ok (record { ip = v6 (mapped inside); port = default_port (some 443) } ∷ [])
validate_and_resolve-mapped_example =
    validate_and_resolve-mapped resolve (url_to (ipv6 (mapped inside))) inside refl refl

is_public_v4-ranges_example :
    is_public (v4 inside) false ≡ not (any (within (to_u32 inside)) blocked)
is_public_v4-ranges_example =
    is_public_v4-ranges inside (omega arith, omega arith, omega arith, omega arith)

-- Two networks that differ for a client pinned to nothing.
abbrev accepts : Request → Result ReqwestError Response
accepts r = ok (record { status = 200; retry_after = none })

abbrev needs_address : Request → Result ReqwestError Response
needs_address (webhook_request url [] n key) =
    err (record { is_timeout = true; is_connect = false; is_request = false })
needs_address r = ok (record { status = 200; retry_after = none })

same_answers :
    (url : Url) (addrs : List SocketAddr)
    → Safe resolve false addrs
    → accepts (webhook_request url addrs notice notice.reminder_id)
      ≡ needs_address (webhook_request url addrs notice notice.reminder_id)
same_answers url [] safe = absurd (omega (arith, safe.0))
same_answers url (x ∷ xs) safe = refl

abbrev target : Option Url
target = some (url_to (domain "example.com"))

send_webhook-pinned_example :
    send_webhook
      (λ date. "")
      (λ id. "")
      (λ s. none)
      resolve
      (λ host addrs. true)
      accepts
      target
      false
      notice
    ≡ send_webhook
        (λ date. "")
        (λ id. "")
        (λ s. none)
        resolve
        (λ host addrs. true)
        needs_address
        target
        false
        notice
send_webhook-pinned_example =
    send_webhook-pinned (λ date. "") (λ id. "") (λ s. none) resolve (λ host addrs. true) accepts
      needs_address false notice same_answers target
