-- ===== src/Socket/Caps.antt =====
-- The connection cap of a destination.
use agent_wake.Prelude.{
  ℕ, ◌+◌, ◌≤◌, ◌<◌, String, ◌≡◌, refl, ap, ◌∙◌, inl, inr, Bool, true, false, Option, none, some,
  List, [], ◌∷◌, ◌++◌, ◌==◌, arith, eq_iff, if◌then◌else◌, leb, length, keep, contains, any,
  Bool-cases, Option-cases, List-cases,
}
use agent_wake.Addressing.Tables.{Destination, destination_table, named}
use agent_wake.Router.State.{Router, Subscriber, set_subscriber}
use agent_wake.Router.Subscribe.{
  destinations_for_hello, destination_load, subscribe, note_subscribed,
}
use agent_wake.Socket.{
  SocketServer, Hello, max_connections, over_name, over_cap, register, handshake,
}

-- no destination has more subscribers than its cap
abbrev pub WithinCaps : Router → Type 0
WithinCaps rt =
    (name : String) (dest : Destination) (cap : ℕ)
    → named name (destination_table rt.config) ≡ some dest
    → dest.max_connections ≡ some cap
    → destination_load name none rt ≤ cap

-- the session id is new
abbrev pub IsNew : String → Router → Type 0
IsNew sid rt = any (λ s. s.session_id == sid) rt.subscribers ≡ false

set_subscriber-new :
    (sub : Subscriber) (subs : List Subscriber)
    → any (λ s. s.session_id == sub.session_id) subs ≡ false
    → set_subscriber sub subs ≡ subs ++ sub ∷ []
unfolding set_subscriber any
set_subscriber-new sub [] h = refl
set_subscriber-new sub (s ∷ subs) h =
    let other : s.session_id == sub.session_id ≡ false = ground arith in
    rw other (ap (◌∷◌ s) (set_subscriber-new sub subs (ground arith)))

subscribers-note_subscribed :
    (names : List String) (rt : Router) → (note_subscribed names rt).subscribers ≡ rt.subscribers
unfolding note_subscribed
subscribers-note_subscribed [] rt = refl
subscribers-note_subscribed (n ∷ names) rt = subscribers-note_subscribed names _

config-note_subscribed :
    (names : List String) (rt : Router) → (note_subscribed names rt).config ≡ rt.config
unfolding note_subscribed
config-note_subscribed [] rt = refl
config-note_subscribed (n ∷ names) rt = config-note_subscribed names _

-- a name that is not over its cap has room
over_name-nil :
    (name : String) (d : Option Destination) (rt : Router) (rest : List (String × ℕ))
    → over_name name d rt rest ≡ []
    → rest ≡ []
unfolding over_name
over_name-nil name none rt rest h = h
over_name-nil name (some d) rt rest h = elim (Option-cases d.max_connections) [
  | inl uncapped ↦ rw uncapped at h
  | inr (cap, is) ↦ elim (Bool-cases (leb cap (destination_load name none rt))) [
    | inl over ↦ let k : (name, cap) ∷ rest ≡ [] = rw (is, over) at h in absurd (cc)
    | inr fits ↦ rw (is, fits) at h
  ]
]

over_name-room :
    (name : String) (d : Destination) (rt : Router) (rest : List (String × ℕ)) (cap : ℕ)
    → over_name name (some d) rt rest ≡ []
    → d.max_connections ≡ some cap
    → destination_load name none rt < cap
unfolding over_name
over_name-room name d rt rest cap h is =
    elim (Bool-cases (leb cap (destination_load name none rt))) [
      | inl over ↦ let k : (name, cap) ∷ rest ≡ [] = rw (is, over) at h in absurd (cc)
      | inr fits ↦ ground (arith, fits)
    ]

room :
    (table : List Destination) (rt : Router) (names : List String) (name : String)
    (dest : Destination) (cap : ℕ)
    → over_cap table rt names ≡ []
    → contains names name ≡ true
    → named name table ≡ some dest
    → dest.max_connections ≡ some cap
    → destination_load name none rt < cap
unfolding over_cap contains
room table rt [] name dest cap o c is capped = absurd (cc)
room table rt (n ∷ names) name dest cap o c is capped = elim (Bool-cases (n == name)) [
  | inl same ↦
      over_name-room name dest rt (over_cap table rt names) cap
        (rw ((eq_iff n name).0 same, is) at o) capped
  | inr other ↦
      room table rt names name dest cap
        (over_name-nil n (named n table) rt (over_cap table rt names) o) (ground arith) is capped
]

length-keep-last :
    (p : Subscriber → Bool) (xs : List Subscriber) (x : Subscriber)
    → length (keep p (xs ++ x ∷ [])) ≡ length (keep p xs) + (if p x then 1 else 0)
unfolding keep
length-keep-last p [] x = ground arith
length-keep-last p (y ∷ xs) x = ground (arith, length-keep-last p xs x)

load_of_new :
    (sub : Subscriber) (subs : List Subscriber) (name : String)
    → any (λ s. s.session_id == sub.session_id) subs ≡ false
    → length (keep (λ s. contains s.destinations name) (set_subscriber sub subs))
      ≡ length (keep (λ s. contains s.destinations name) subs)
        + (if contains sub.destinations name then 1 else 0)
load_of_new sub subs name new = rw (set_subscriber-new sub subs new) (length-keep-last _ subs sub)

same_load :
    (name : String) (r r' : Router)
    → r'.subscribers ≡ r.subscribers
    → destination_load name none r' ≡ destination_load name none r
unfolding destination_load
same_load name r r' e = rw e refl

-- one subscriber more is one more on the destinations that it serves
load-subscribe :
    (now : ℕ) (sid : String) (hello : Hello) (ds : List String) (rt : Router) (name : String)
    → IsNew sid rt
    → destination_load name none
        (subscribe now sid hello.adapter hello.instance_name hello.sources (some ds) rt)
      ≡ destination_load name none rt + (if contains ds name then 1 else 0)
unfolding subscribe destination_load
load-subscribe now sid hello ds rt name new = load_of_new _ rt.subscribers name new

register-WithinCaps :
    (now : ℕ) (sid : String) (hello : Hello) (ds : List String) (s : SocketServer)
    → IsNew sid s.router
    → WithinCaps s.router
    → over_cap (destination_table s.router.config) s.router ds ≡ []
    → WithinCaps (register now sid hello ds s).router
unfolding register
register-WithinCaps now sid hello ds s new within fits = λ name dest cap is capped.
    let here =
      subscribe now sid hello.adapter hello.instance_name hello.sources (some ds) s.router in
    let is' : named name (destination_table s.router.config) ≡ some dest =
      unfold subscribe in rw config-note_subscribed at is in
    let load =
      same_load name here (note_subscribed ds here) (subscribers-note_subscribed ds here)
      ∙ load-subscribe now sid hello ds s.router name new in
    elim (Bool-cases (contains ds name)) [
      | inl asked ↦
          let more =
            room (destination_table s.router.config) s.router ds name dest cap fits asked is'
              capped in
          rw load (rw asked (omega (arith, more)))
      | inr other ↦
          let same = within name dest cap is' capped in rw load (rw other (omega (arith, same)))
    ]

-- A handshake never admits a connection above the cap of a destination: if the loads are within the
-- caps and the session id is new, they are within the caps after it.
pub handshake-WithinCaps :
    (ack_written : Bool) (now : ℕ) (sid : String) (hello : Hello) (s : SocketServer)
    → IsNew sid s.router
    → WithinCaps s.router
    → WithinCaps (handshake ack_written now sid hello s).0.router
unfolding handshake
handshake-WithinCaps ack_written now sid hello s new within =
    let ds = destinations_for_hello hello.adapter hello.sources hello.claimed s.router in
    elim (Bool-cases (leb max_connections (length s.connections))) [
      | inl full ↦ rw (full, handshake) within
      | inr free ↦ elim (List-cases (over_cap (destination_table s.router.config) s.router ds)) [
        | inl fits ↦
            rw (free, fits, handshake) (register-WithinCaps now sid hello ds s new within fits)
        | inr (o, over, is) ↦ rw (free, is, handshake) within
      ]
    ]
