-- ===== src/Notifications/Ssrf/Gate.antt =====
-- What passes the gate of src/notifications/ssrf.rs.
use text.Mathlib.Text.{◌==◌ as str_eq}
use legaltech_contract_autom.Common.{
  ℕ, ◌<◌, ◌+◌, ◌*◌, if◌then◌else◌, String, Bool, true, false, ◌≡◌, refl, Option, none, some, List,
  [], ◌∷◌, All, all, length, Result, ok, err, arith, Bool-cases, inl, inr,
}
use legaltech_contract_autom.Notifications.Channel.{DeliveryError, unsafe_destination}
use legaltech_contract_autom.Notifications.Ssrf.{
  SocketAddr, Host, ipv4, ipv6, domain, IpAddr, v4, v6, Ipv6Addr, Ipv4Addr, Url, is_public,
  is_public_v6, scheme_ok, default_port, literal, resolved, resolve_host, validate_and_resolve,
  check_all, check_resolved, check_host, validate,
}

-- The IPv4-mapped form of an address, ::ffff:a.b.c.d.
abbrev pub mapped : Ipv4Addr → Ipv6Addr
mapped ip = record {
  s0 = 0;
  s1 = 0;
  s2 = 0;
  s3 = 0;
  s4 = 0;
  s5 = 0xffff;
  s6 = ip.a * 256 + ip.b;
  s7 = ip.c * 256 + ip.d;
}

-- The value is forgotten, the error kept.
abbrev pub forget : {A : Type 0} → Result DeliveryError A → Result DeliveryError (Unit {0})
forget (ok a) = ok tt
forget (err e) = err e

all-All :
    (allow : Bool) (xs : List SocketAddr)
    → all (λ (a : SocketAddr). is_public a.ip allow) xs ≡ true
    → All (λ a. is_public a.ip allow ≡ true) xs
all-All allow [] h = tt
all-All allow (x ∷ xs) h = (ground arith, all-All allow xs (ground arith))

module _ (resolve : String → ℕ → Option (List SocketAddr)) where
  -- Some address, and every one public.
  abbrev pub Safe : Bool → List SocketAddr → Type 0
  Safe allow addrs = (0 < length addrs) × All (λ a. is_public a.ip allow ≡ true) addrs

  resolved-Safe :
      (o : Option (List SocketAddr)) (allow : Bool) {addrs : List SocketAddr}
      → resolved resolve o allow ≡ ok addrs
      → Safe allow addrs
  unfolding resolved
  resolved-Safe none allow h = absurd (cc)
  resolved-Safe (some []) allow h = absurd (cc)
  resolved-Safe (some (x ∷ xs)) allow {addrs} h =
      elim (Bool-cases (all (λ (a : SocketAddr). is_public a.ip allow) (x ∷ xs))) [
        | inl e ↦
            let same : addrs ≡ x ∷ xs = ground arith in
            rw same (omega arith, all-All allow (x ∷ xs) e)
        | inr e ↦ absurd (ground arith)
      ]

  literal-Safe :
      (ip : IpAddr) (port : ℕ) (allow : Bool) {addrs : List SocketAddr}
      → literal resolve ip port allow ≡ ok addrs
      → Safe allow addrs
  unfolding literal
  literal-Safe ip port allow {addrs} h = elim (Bool-cases (is_public ip allow)) [
    | inl e ↦
        let same : addrs ≡ record { ip = ip; port = port } ∷ [] = ground arith in
        rw same (omega arith, (e, tt))
    | inr e ↦ absurd (ground arith)
  ]

  resolve_host-Safe :
      (host : Option Host) (port : ℕ) (allow : Bool) {addrs : List SocketAddr}
      → resolve_host resolve host port allow ≡ ok addrs
      → Safe allow addrs
  unfolding resolve_host
  resolve_host-Safe none port allow h = absurd (cc)
  resolve_host-Safe (some (ipv4 ip)) port allow h = literal-Safe (v4 ip) port allow h
  resolve_host-Safe (some (ipv6 ip)) port allow h = literal-Safe (v6 ip) port allow h
  resolve_host-Safe (some (domain name)) port allow h = resolved-Safe (resolve name port) allow h

  -- The gate opens only for an `https` URL, or an `http` one while loopback is allowed; it returns at
  -- least one address, and every address that it returns is public.
  pub validate_and_resolve-Safe :
      (url : Url) (allow : Bool) (addrs : List SocketAddr)
      → validate_and_resolve resolve url allow ≡ ok addrs
      → (scheme_ok url.scheme allow ≡ true)
        × (0 < length addrs)
        × All (λ a. is_public a.ip allow ≡ true) addrs
  unfolding validate_and_resolve
  validate_and_resolve-Safe url allow addrs h = elim (Bool-cases (scheme_ok url.scheme allow)) [
    | inl e ↦
        let (some_addr, safe) = resolve_host-Safe url.host _ allow (rw e at h) in
        (e, some_addr, safe)
    | inr e ↦ absurd (ground arith)
  ]

  check_all-eq :
      (xs : List SocketAddr) (allow : Bool)
      → check_all resolve true xs allow ≡ (
          if all (λ (a : SocketAddr). is_public a.ip allow) xs
          then ok tt
          else err unsafe_destination)
  unfolding check_all
  check_all-eq [] allow = refl
  check_all-eq (x ∷ xs) allow = ground (arith, check_all-eq xs allow)

  check_resolved-eq :
      (o : Option (List SocketAddr)) (allow : Bool)
      → check_resolved resolve o allow ≡ forget (resolved resolve o allow)
  unfolding check_resolved resolved
  check_resolved-eq none allow = refl
  check_resolved-eq (some []) allow = refl
  check_resolved-eq (some (x ∷ xs)) allow = ground (arith, check_all-eq xs allow)

  check_host-eq :
      (host : Option Host) (port : ℕ) (allow : Bool)
      → check_host resolve host port allow ≡ forget (resolve_host resolve host port allow)
  unfolding check_host resolve_host
  check_host-eq none port allow = refl
  check_host-eq (some (ipv4 ip)) port allow = ground arith
  check_host-eq (some (ipv6 ip)) port allow = ground arith
  check_host-eq (some (domain name)) port allow = check_resolved-eq (resolve name port) allow

  -- `validate` and `validate_and_resolve` accept the same URLs, and refuse with the same error.
  pub validate-eq-forget :
      (url : Url) (allow : Bool)
      → validate resolve url allow ≡ forget (validate_and_resolve resolve url allow)
  unfolding validate validate_and_resolve
  validate-eq-forget url allow =
      ground (arith, check_host-eq url.host (default_port url.port_or_known_default) allow)

  -- An `https` URL whose host is the IPv4-mapped IPv6 form of any IPv4 address, also of one that is
  -- refused as such (loopback, private, link-local), passes the gate with loopback forbidden.
  pub validate_and_resolve-mapped :
      (url : Url) (ip : Ipv4Addr)
      → str_eq url.scheme "https" ≡ true
      → url.host ≡ some (ipv6 (mapped ip))
      → validate_and_resolve resolve url false
        ≡ ok (record { ip = v6 (mapped ip); port = default_port url.port_or_known_default } ∷ [])
  unfolding validate_and_resolve is_public is_public_v6
  validate_and_resolve-mapped url ip s h = rw (s, h) refl
