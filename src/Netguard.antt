-- ===== src/Netguard.antt =====
-- daemon/src/agent_waked/netguard.py: which addresses the daemon may not connect to. The properties of an
-- address are those of Python 3.13's `ipaddress`; how that reads a text, and what the resolver of the
-- system answers, are arguments.
pub mod Mapped
use agent_wake.Prelude.{
  ℕ, ◌+◌, ◌-◌, ◌*◌, ◌/◌, ◌%◌, String, Bool, true, false, not, ◌&&◌, ◌||◌, Option, none, some, List,
  [], ◌∷◌, ◌==◌, if◌then◌else◌, eqb, leb, any,
}
use agent_wake.Outbox.Url.{url_scheme}
use agent_wake.Url.{hostname}

-- An address as a number of 32, or of 128, bits.
pub data Ip : Type 0 where
  v4 : ℕ → Ip
  v6 : ℕ → Ip

-- a network: its first and its last address
abbrev pub Network : Type 0
Network = ℕ × ℕ

unfoldable pub within : ℕ → Network → Bool
within n (first, last) = leb first n && leb n last

-- `a.b.c.d`, and the 16-bit groups a:b:c:d with zeros behind
abbrev dotted : ℕ → ℕ → ℕ → ℕ → ℕ
dotted a b c d = ((a * 256 + b) * 256 + c) * 256 + d

abbrev groups : ℕ → ℕ → ℕ → ℕ → ℕ
groups a b c d = (((a * 65536 + b) * 65536 + c) * 65536 + d) * 0x10000000000000000

-- CGNAT_RANGE
abbrev pub cgnat_range : Network
cgnat_range = (dotted 100 64 0 0, dotted 100 127 255 255)

-- `IPv4Address.is_private`
abbrev private_v4 : List Network
private_v4 =
    (dotted 0 0 0 0, dotted 0 255 255 255)
    ∷ (dotted 10 0 0 0, dotted 10 255 255 255)
    ∷ (dotted 127 0 0 0, dotted 127 255 255 255)
    ∷ (dotted 169 254 0 0, dotted 169 254 255 255)
    ∷ (dotted 172 16 0 0, dotted 172 31 255 255)
    ∷ (dotted 192 0 0 0, dotted 192 0 0 8)
    ∷ (dotted 192 0 0 11, dotted 192 0 0 255)
    ∷ (dotted 192 0 2 0, dotted 192 0 2 255)
    ∷ (dotted 192 168 0 0, dotted 192 168 255 255)
    ∷ (dotted 198 18 0 0, dotted 198 19 255 255)
    ∷ (dotted 198 51 100 0, dotted 198 51 100 255)
    ∷ (dotted 203 0 113 0, dotted 203 0 113 255)
    ∷ (dotted 240 0 0 0, dotted 255 255 255 255)
    ∷ []

-- `is_multicast`; what is loopback, link-local, reserved or unspecified is private as well
abbrev multicast_v4 : Network
multicast_v4 = (dotted 224 0 0 0, dotted 239 255 255 255)

unfoldable pub is_forbidden_v4 : ℕ → Bool
unfolding within any
is_forbidden_v4 n = any (within n) private_v4 || within n multicast_v4 || within n cgnat_range

-- the ranges inside those of `IPv6Address.is_private` that it excepts
abbrev global_v6 : List Network
global_v6 =
    (groups 0x2001 1 0 0 + 1, groups 0x2001 1 0 0 + 2)
    ∷ (groups 0x2001 3 0 0, groups 0x2001 4 0 0 - 1)
    ∷ (groups 0x2001 4 0x112 0, groups 0x2001 4 0x113 0 - 1)
    ∷ (groups 0x2001 0x20 0 0, groups 0x2001 0x40 0 0 - 1)
    ∷ []

-- those that lie in 2000::/3
abbrev private_v6 : List Network
private_v6 =
    (groups 0x2001 0 0 0, groups 0x2001 0x200 0 0 - 1)
    ∷ (groups 0x2001 0xdb8 0 0, groups 0x2001 0xdb9 0 0 - 1)
    ∷ (groups 0x2002 0 0 0, groups 0x2003 0 0 0 - 1)
    ∷ (groups 0x3fff 0 0 0, groups 0x3fff 0x1000 0 0 - 1)
    ∷ []

-- all outside 2000::/3 and the old site-local fec0::/10 is reserved, private, link-local or multicast
abbrev unicast_v6 : Network
unicast_v6 = (groups 0x2000 0 0 0, groups 0x4000 0 0 0 - 1)

abbrev site_local_v6 : Network
site_local_v6 = (groups 0xfec0 0 0 0, groups 0xff00 0 0 0 - 1)

unfoldable pub is_forbidden_v6 : ℕ → Bool
unfolding within any
is_forbidden_v6 n =
    not (within n unicast_v6 || within n site_local_v6)
    || any (within n) private_v6 && not (any (within n) global_v6)

-- `ip.ipv4_mapped`
unfoldable pub ipv4_mapped : ℕ → Option ℕ
ipv4_mapped n = if eqb (n / 0x100000000) 0xffff then some (n % 0x100000000) else none

unfoldable pub is_forbidden_ip : Ip → Bool
unfolding ipv4_mapped is_forbidden_v4 is_forbidden_v6
is_forbidden_ip (v4 n) = is_forbidden_v4 n
is_forbidden_ip (v6 n) = elim (ipv4_mapped n) [
  | none ↦ is_forbidden_v6 n
  | some m ↦ is_forbidden_v4 m
]

-- What the guard asks: `ipaddress.ip_address` of a text, which raises on one that is no address, and the
-- addresses of a host name, which is an OSError if it does not resolve.
pub record Resolver : Type 0 where
  pub ip_address : String → Option Ip
  pub addresses : String → Option (List String)

unfoldable pub is_forbidden_address : Resolver → String → Bool
unfolding is_forbidden_ip
is_forbidden_address net addr = elim (net.ip_address addr) [
  | none ↦ false
  | some ip ↦ is_forbidden_ip ip
]

-- the first forbidden address, or `none`
unfoldable pub forbidden_address : Resolver → List String → Option String
forbidden_address net [] = none
forbidden_address net (a ∷ addrs) =
    if is_forbidden_address net a then some a else forbidden_address net addrs

-- Why a host is refused.
pub data Unsafe : Type 0 where
  disallowed_scheme : String → Unsafe
  no_hostname : Unsafe
  not_resolved : String → Unsafe
  no_addresses : String → Unsafe
  forbidden : String → String → Unsafe

unfoldable pub check_addresses : Resolver → String → Option (List String) → Option Unsafe
unfolding forbidden_address
check_addresses net host none = some (not_resolved host)
check_addresses net host (some []) = some (no_addresses host)
check_addresses net host (some (a ∷ addrs)) = elim (forbidden_address net (a ∷ addrs)) [
  | none ↦ none
  | some bad ↦ some (forbidden host bad)
]

unfoldable pub check_host : Resolver → String → Option Unsafe
unfolding check_addresses
check_host net host =
    if host == "" then some no_hostname else check_addresses net host (net.addresses host)

-- `acheck_url`
unfoldable pub check_url : Resolver → String → Option Unsafe
unfolding check_host
check_url net url =
    if url_scheme url == "http" || url_scheme url == "https"
    then check_host net (hostname url)
    else some (disallowed_scheme (url_scheme url))
