-- ===== src/Router/Subscribe.antt =====
-- Subscribers of router.py: who may serve a destination, and who does.
pub mod Serving
use agent_wake.Prelude.{
  ℕ, ◌+◌, String, Bool, true, false, ◌&&◌, ◌||◌, not, Option, none, some, List, [], ◌∷◌, ◌++◌, ◌==◌,
  if◌then◌else◌, contains, length, keep, map,
}
use mathlib.Core.List.{reverse}
use agent_wake.Addressing.Tables.{Destination, accepts_adapter, named, destination_table}
use agent_wake.Router.State.{
  Router, Subscriber, subscriber, set_subscriber, without, remove_first, pop_count,
}

-- `claimed if claimed else sources`
abbrev pub asked : List String → Option (List String) → List String
asked sources none = sources
asked sources (some []) = sources
asked sources (some (c ∷ cs)) = c ∷ cs

abbrev pub served : List Destination → String → String → Bool
served table adapter name = elim (named name table) [
  | none ↦ false
  | some d ↦ accepts_adapter d adapter
]

-- the loop of `destinations_for_hello`
unfoldable pub accept_names : List Destination → String → List String → List String → List String
accept_names table adapter out [] = out
accept_names table adapter out (name ∷ names) =
    accept_names table adapter
      (if served table adapter name && not (contains out name) then out ++ name ∷ [] else out) names

unfoldable pub destinations_for_hello :
    String → List String → Option (List String) → Router → List String
unfolding accept_names
destinations_for_hello adapter sources claimed rt =
    accept_names (destination_table rt.config) adapter [] (asked sources claimed)

unfoldable pub accepted_sources_for : String → List String → Router → List String
accepted_sources_for adapter requested rt =
    keep (served (destination_table rt.config) adapter) requested

abbrev is_other : Option String → Subscriber → Bool
is_other none s = true
is_other (some sid) s = not (s.session_id == sid)

unfoldable pub destination_load : String → Option String → Router → ℕ
destination_load name exclude rt =
    length (keep (λ s. is_other exclude s && contains s.destinations name) rt.subscribers)

abbrev pub serves : Destination → Subscriber → Bool
serves dest s = contains s.destinations dest.name && accepts_adapter dest s.adapter

-- the loop of `_subscriber_for` over the session ids, newest first
unfoldable pub first_serving : Destination → List Subscriber → List String → Option Subscriber
first_serving dest subs [] = none
first_serving dest subs (sid ∷ sids) = elim (subscriber sid subs) [
  | none ↦ first_serving dest subs sids
  | some s ↦ if serves dest s then some s else first_serving dest subs sids
]

unfoldable pub subscriber_for : Destination → Router → Option Subscriber
unfolding first_serving
subscriber_for dest rt = first_serving dest rt.subscribers (reverse rt.order)

unfoldable pub subscribe :
    ℕ → String → String → String → List String → Option (List String) → Router → Router
subscribe now session_id adapter instance_name sources destinations rt = record rt {
  subscribers =
      set_subscriber
        (record {
          session_id = session_id;
          adapter = adapter;
          instance_name = instance_name;
          sources = sources;
          destinations = elim destinations [ none ↦ sources | some ds ↦ ds ];
          in_flight = 0;
          connected_at = now;
        })
        rt.subscribers;
  order = rt.order ++ session_id ∷ [];
}

unfoldable pub unsubscribe : String → Router → Router
unsubscribe session_id rt = record rt {
  subscribers = without session_id rt.subscribers;
  order = remove_first session_id rt.order;
}

-- `_evict`: closing the connection is left to the socket server
unfoldable pub evict : String → Router → Router
unfolding unsubscribe
evict session_id rt = unsubscribe session_id rt

unfoldable pub note_subscribed : List String → Router → Router
note_subscribed [] rt = rt
note_subscribed (name ∷ names) rt = note_subscribed names (record rt {
  ever_subscribed =
      if contains rt.ever_subscribed name
      then rt.ever_subscribed
      else rt.ever_subscribed ++ name ∷ [];
  consecutive_queued = pop_count name rt.consecutive_queued;
})

-- `prune_warning_state`
unfoldable pub prune_warning_state : Router → Router
prune_warning_state rt =
    let current = map (λ d. d.name) (destination_table rt.config) in
    record rt {
      ever_subscribed = keep (contains current) rt.ever_subscribed;
      consecutive_queued = keep (λ e. e.0 == "" || contains current e.0) rt.consecutive_queued;
    }

unfoldable pub in_flight_for : String → Router → ℕ
in_flight_for session_id rt = elim (subscriber session_id rt.subscribers) [
  | none ↦ 0
  | some s ↦ s.in_flight
]
