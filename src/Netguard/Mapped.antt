-- ===== src/Netguard/Mapped.antt =====
-- What the guard promises of the addresses that it lets through.
use agent_wake.Prelude.{
  ℕ, ◌+◌, ◌*◌, ◌<◌, String, ◌≡◌, ◌≢◌, refl, inl, inr, true, false, ◌||◌, Option, none, some, List,
  [], ◌∷◌, arith, ◌==◌, eq_iff, All, Bool-cases, Option-cases,
}
use agent_wake.Outbox.Url.{url_scheme}
use agent_wake.Url.{hostname}
use agent_wake.Netguard.{
  v4, v6, ipv4_mapped, is_forbidden_ip, is_forbidden_address, forbidden_address, check_host,
  check_addresses, check_url, Resolver, no_hostname, forbidden, disallowed_scheme,
}

mapped-some : (n : ℕ) → n < 0x100000000 → ipv4_mapped (0xffff * 0x100000000 + n) ≡ some n
unfolding ipv4_mapped
mapped-some n h = ground arith

-- The IPv6 spelling of an IPv4 address is forbidden exactly if the IPv4 address is.
pub mapped_alike :
    (n : ℕ)
    → n < 0x100000000
    → is_forbidden_ip (v6 (0xffff * 0x100000000 + n)) ≡ is_forbidden_ip (v4 n)
unfolding is_forbidden_ip
mapped_alike n h = rw (mapped-some n h, is_forbidden_ip) refl

all_allowed :
    (net : Resolver) (addrs : List String)
    → forbidden_address net addrs ≡ none
    → All (λ a. is_forbidden_address net a ≡ false) addrs
unfolding forbidden_address
all_allowed net [] h = tt
all_allowed net (a ∷ addrs) h = elim (Bool-cases (is_forbidden_address net a)) [
  | inl y ↦ absurd (let k : some a ≡ none = rw y at h in cc)
  | inr n ↦ (n, all_allowed net addrs (rw n at h))
]

-- the host has addresses, and none of them is forbidden
abbrev pub IsPublic : Resolver → String → Type 0
IsPublic net host =
    (addrs : List String) × (net.addresses host ≡ some addrs)
    × (addrs ≢ [])
    × All (λ a. is_forbidden_address net a ≡ false) addrs

addresses-IsPublic :
    (net : Resolver) (host : String) (found : Option (List String))
    → net.addresses host ≡ found
    → check_addresses net host found ≡ none
    → IsPublic net host
unfolding check_addresses
addresses-IsPublic net host none e h = absurd (cc)
addresses-IsPublic net host (some []) e h = absurd (cc)
addresses-IsPublic net host (some (a ∷ addrs)) e h =
    elim (Option-cases (forbidden_address net (a ∷ addrs))) [
      | inl fine ↦ (a ∷ addrs, e, (cc), all_allowed net (a ∷ addrs) fine)
      | inr (bad, is) ↦
          absurd (let k : some (forbidden host bad) ≡ none = rw (is, check_addresses) at h in cc)
    ]

pub check_host-IsPublic :
    (net : Resolver) (host : String) → check_host net host ≡ none → (host ≢ "") × IsPublic net host
unfolding check_host
check_host-IsPublic net host h = elim (Bool-cases (host == "")) [
  | inl y ↦ absurd (let k : some no_hostname ≡ none = rw (y, check_host) at h in cc)
  | inr n ↦ (
    λ e. absurd (let k : (host == "") ≡ true = (eq_iff host "").1 e in cc),
    addresses-IsPublic net host (net.addresses host) refl (rw n at h),
  )
]

-- A URL that passes the guard of a delivery has the scheme http or https and a host, which resolves to at
-- least one address, and to none that is loopback, private, link-local, multicast, reserved,
-- unspecified or of the shared range, in its IPv4 or its IPv6 spelling.
pub check_url-IsPublic :
    (net : Resolver) (url : String)
    → check_url net url ≡ none
    → ((url_scheme url == "http" || url_scheme url == "https") ≡ true)
      × (hostname url ≢ "")
      × IsPublic net (hostname url)
unfolding check_url
check_url-IsPublic net url h =
    elim (Bool-cases (url_scheme url == "http" || url_scheme url == "https")) [
      | inl y ↦
          let (named, open_host) = check_host-IsPublic net (hostname url) (rw y at h) in
          (y, named, open_host)
      | inr n ↦ absurd (let k : some (disallowed_scheme (url_scheme url)) ≡ none = rw n at h in cc)
    ]
