-- ===== src/Notifications/Ssrf.antt =====
-- src/notifications/ssrf.rs: which destinations a webhook may reach.
-- A parsed URL is what the code reads of it; `resolve` is the system resolver, `none` on failure.
pub mod Ranges
pub mod Gate
use Prim.Native.Nat.{bit_and}
use text.Mathlib.Text.{◌==◌ as str_eq}
use legaltech_contract_autom.Common.{
  ℕ, String, Bool, true, false, not, ◌&&◌, ◌||◌, Option, none, some, if◌then◌else◌, ◌==◌, leb, List,
  [], ◌∷◌, all, Result, ok, err,
}
use legaltech_contract_autom.Notifications.Channel.{DeliveryError, unsafe_destination, invalid_url}

-- The octets of an address.
pub record Ipv4Addr : Type 0 where
  pub a : ℕ
  pub b : ℕ
  pub c : ℕ
  pub d : ℕ

-- The 16-bit segments of an address.
pub record Ipv6Addr : Type 0 where
  pub s0 : ℕ
  pub s1 : ℕ
  pub s2 : ℕ
  pub s3 : ℕ
  pub s4 : ℕ
  pub s5 : ℕ
  pub s6 : ℕ
  pub s7 : ℕ

pub data IpAddr : Type 0 where
  v4 : Ipv4Addr → IpAddr
  v6 : Ipv6Addr → IpAddr

pub record SocketAddr : Type 0 where
  pub ip : IpAddr
  pub port : ℕ

pub data Host : Type 0 where
  ipv4 : Ipv4Addr → Host
  ipv6 : Ipv6Addr → Host
  domain : String → Host

pub record Url : Type 0 where
  pub scheme : String
  pub host : Option Host
  pub host_str : Option String
  pub port_or_known_default : Option ℕ

-- std::net::Ipv4Addr
abbrev pub is_loopback_v4 : Ipv4Addr → Bool
is_loopback_v4 ip = ip.a == 127

abbrev is_private_v4 : Ipv4Addr → Bool
is_private_v4 ip =
    ip.a == 10 || ip.a == 172 && leb 16 ip.b && leb ip.b 31 || ip.a == 192 && ip.b == 168

abbrev pub is_link_local_v4 : Ipv4Addr → Bool
is_link_local_v4 ip = ip.a == 169 && ip.b == 254

abbrev pub is_broadcast_v4 : Ipv4Addr → Bool
is_broadcast_v4 ip = ip.a == 255 && ip.b == 255 && ip.c == 255 && ip.d == 255

abbrev pub is_unspecified_v4 : Ipv4Addr → Bool
is_unspecified_v4 ip = ip.a == 0 && ip.b == 0 && ip.c == 0 && ip.d == 0

abbrev is_documentation_v4 : Ipv4Addr → Bool
is_documentation_v4 ip =
    ip.a == 192 && ip.b == 0 && ip.c == 2
    || ip.a == 198 && ip.b == 51 && ip.c == 100
    || ip.a == 203 && ip.b == 0 && ip.c == 113

-- std::net::Ipv6Addr
abbrev is_zero_but_last : Ipv6Addr → Bool
is_zero_but_last ip =
    ip.s0 == 0 && ip.s1 == 0 && ip.s2 == 0 && ip.s3 == 0 && ip.s4 == 0 && ip.s5 == 0 && ip.s6 == 0

abbrev is_loopback_v6 : Ipv6Addr → Bool
is_loopback_v6 ip = is_zero_but_last ip && ip.s7 == 1

abbrev is_unspecified_v6 : Ipv6Addr → Bool
is_unspecified_v6 ip = is_zero_but_last ip && ip.s7 == 0

unfoldable pub is_shared_v4 : Ipv4Addr → Bool
is_shared_v4 ip = ip.a == 100 && leb 64 ip.b && leb ip.b 127

unfoldable pub is_unique_local_v6 : Ipv6Addr → Bool
is_unique_local_v6 ip = bit_and ip.s0 0xfe00 == 0xfc00

unfoldable pub is_link_local_v6 : Ipv6Addr → Bool
is_link_local_v6 ip = bit_and ip.s0 0xffc0 == 0xfe80

unfoldable pub is_public_v4 : Ipv4Addr → Bool → Bool
unfolding is_shared_v4
is_public_v4 ip allow_loopback =
    if is_loopback_v4 ip
    then allow_loopback
    else not (
        is_private_v4 ip
        || is_link_local_v4 ip
        || is_broadcast_v4 ip
        || is_unspecified_v4 ip
        || is_documentation_v4 ip
        || is_shared_v4 ip)

unfoldable pub is_public_v6 : Ipv6Addr → Bool → Bool
unfolding is_unique_local_v6 is_link_local_v6
is_public_v6 ip allow_loopback =
    if is_loopback_v6 ip
    then allow_loopback
    else not (is_unspecified_v6 ip || is_unique_local_v6 ip || is_link_local_v6 ip)

unfoldable pub is_public : IpAddr → Bool → Bool
is_public (v4 ip) allow_loopback = is_public_v4 ip allow_loopback
is_public (v6 ip) allow_loopback = is_public_v6 ip allow_loopback

abbrev pub scheme_ok : String → Bool → Bool
scheme_ok scheme allow_loopback =
    if str_eq scheme "https" then true else if str_eq scheme "http" then allow_loopback else false

abbrev pub default_port : Option ℕ → ℕ
default_port none = 443
default_port (some port) = port

module _ (resolve : String → ℕ → Option (List SocketAddr)) where
  -- A literal address, on its own.
  literal : IpAddr → ℕ → Bool → Result DeliveryError (List SocketAddr)
  literal ip port allow_loopback =
      if not (is_public ip allow_loopback)
      then err unsafe_destination
      else ok (record { ip = ip; port = port } ∷ [])

  -- The answer of the resolver: some address, and every one public.
  resolved : Option (List SocketAddr) → Bool → Result DeliveryError (List SocketAddr)
  resolved none allow_loopback = err invalid_url
  resolved (some []) allow_loopback = err invalid_url
  resolved (some (x ∷ xs)) allow_loopback =
      if all (λ (addr : SocketAddr). is_public addr.ip allow_loopback) (x ∷ xs)
      then ok (x ∷ xs)
      else err unsafe_destination

  resolve_host : Option Host → ℕ → Bool → Result DeliveryError (List SocketAddr)
  unfolding literal resolved
  resolve_host none port allow_loopback = err invalid_url
  resolve_host (some (ipv4 ip)) port allow_loopback = literal (v4 ip) port allow_loopback
  resolve_host (some (ipv6 ip)) port allow_loopback = literal (v6 ip) port allow_loopback
  resolve_host (some (domain name)) port allow_loopback =
      resolved (resolve name port) allow_loopback

  unfoldable pub validate_and_resolve :
      Url → (allow_loopback : Bool) → Result DeliveryError (List SocketAddr)
  unfolding resolve_host
  validate_and_resolve url allow_loopback =
      if scheme_ok url.scheme allow_loopback
      then resolve_host url.host (default_port url.port_or_known_default) allow_loopback
      else err unsafe_destination

  -- The loop of `validate` over the resolver's addresses, with `any_checked`.
  check_all : Bool → List SocketAddr → Bool → Result DeliveryError (Unit {0})
  check_all any_checked [] allow_loopback = if not any_checked then err invalid_url else ok tt
  check_all any_checked (x ∷ xs) allow_loopback =
      if not (is_public x.ip allow_loopback)
      then err unsafe_destination
      else check_all true xs allow_loopback

  check_resolved : Option (List SocketAddr) → Bool → Result DeliveryError (Unit {0})
  unfolding check_all
  check_resolved none allow_loopback = err invalid_url
  check_resolved (some addrs) allow_loopback = check_all false addrs allow_loopback

  check_host : Option Host → ℕ → Bool → Result DeliveryError (Unit {0})
  unfolding check_resolved
  check_host none port allow_loopback = err invalid_url
  check_host (some (ipv4 ip)) port allow_loopback =
      if not (is_public (v4 ip) allow_loopback) then err unsafe_destination else ok tt
  check_host (some (ipv6 ip)) port allow_loopback =
      if not (is_public (v6 ip) allow_loopback) then err unsafe_destination else ok tt
  check_host (some (domain name)) port allow_loopback =
      check_resolved (resolve name port) allow_loopback

  unfoldable pub validate : Url → (allow_loopback : Bool) → Result DeliveryError (Unit {0})
  unfolding check_host
  validate url allow_loopback =
      if scheme_ok url.scheme allow_loopback
      then check_host url.host (default_port url.port_or_known_default) allow_loopback
      else err unsafe_destination
