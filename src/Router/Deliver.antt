-- ===== src/Router/Deliver.antt =====
-- `deliver` of router.py: the destinations of an event, its live copies, and its status.
pub mod Status
pub mod Leak
use agent_wake.Prelude.{
  ℕ, zero, suc, ◌+◌, String, Bool, true, false, Option, none, some, List, [], ◌∷◌, ◌++◌, ◌==◌,
  if◌then◌else◌, contains, ltb,
}
use agent_wake.Json.{Json, Fields, get, as_obj, as_str, str, text_at}
use agent_wake.Addressing.Tables.{Destination}
use agent_wake.Addressing.Resolve.{
  Resolution, found, destination_not_routed, principal_not_routed, resolve,
}
use agent_wake.Router.State.{Router}
use agent_wake.Router.Subscribe.{subscriber_for}
use agent_wake.Router.Undeliverable.{undeliverable}
use agent_wake.Router.Send.{Await, send_to}

-- `isinstance(raw, str) and raw`
unfoldable pub non_empty : Option String → Option String
non_empty none = none
non_empty (some s) = if s == "" then none else some s

-- a field of `meta` that asks for a narrowing
unfoldable pub requested : String → Fields → Option String
unfolding non_empty
requested k event = elim (as_obj (get "meta" event)) [
  | none ↦ none
  | some meta ↦ non_empty (as_str (get k meta))
]

-- `_resolve_addressing`
unfoldable pub resolve_addressing : Fields → Fields → Resolution
unfolding requested
resolve_addressing config event =
    resolve config (text_at "source" event) (requested "destination" event)
      (requested "principal" event)

-- What the loop over the destinations leaves: the router, the copies that were sent, and the names of
-- the destinations that got none.
pub record Fanout : Type 0 where
  pub router : Router
  pub delivered : ℕ
  pub missed : List String

-- `env` and `ack_ids` give, for the destination's name, what happens at its send and its new ULID.
module _ (env : String → Await) (ack_ids : String → String) (sender_name : String) where
  -- one round of the loop
  unfoldable pub fan_out_one : Destination → Fanout → Fanout
  fan_out_one dest f = elim (subscriber_for dest f.router) [
    | none ↦ record f { missed = f.missed ++ dest.name ∷ [] }
    | some sub ↦
        let (rt, ok) = send_to (env dest.name) (ack_ids dest.name) sub dest sender_name f.router in
        if ok
        then record f { router = rt; delivered = f.delivered + 1 }
        else record f { router = rt; missed = f.missed ++ dest.name ∷ [] }
  ]

  unfoldable pub fan_out : List Destination → Fanout → Fanout
  fan_out [] f = f
  fan_out (dest ∷ dests) f = fan_out dests (fan_out_one dest f)

-- the statuses of the destinations that got no copy
unfoldable pub undeliverable_all : ℕ → Fields → List String → Router → Router × List String
undeliverable_all now event [] rt = (rt, [])
undeliverable_all now event (name ∷ names) rt =
    let (rt', status) = undeliverable now event (some name) rt in
    let (rt'', statuses) = undeliverable_all now event names rt' in (rt'', status ∷ statuses)

unfoldable pub overall : ℕ → List String → String
overall (suc n) statuses = "queued"
overall zero statuses =
    if contains statuses "queued_next_session" then "queued_next_session" else "no_subscriber"

unfoldable pub deliver_to :
    (String → Await) → (String → String) → ℕ → Fields → Resolution → Router → Router × String
unfolding overall
deliver_to env ack_ids now event destination_not_routed rt = (rt, "destination_not_routed")
deliver_to env ack_ids now event principal_not_routed rt = (rt, "principal_not_routed")
deliver_to env ack_ids now event (found []) rt = undeliverable now event none rt
deliver_to env ack_ids now event (found (d ∷ ds)) rt =
    let f =
      fan_out env ack_ids (text_at "source" event) (d ∷ ds)
        (record { router = rt; delivered = 0; missed = [] }) in
    let (rt', statuses) = undeliverable_all now event f.missed f.router in
    (rt', overall f.delivered statuses)

unfoldable pub deliver :
    (String → Await) → (String → String) → ℕ → Fields → Router → Router × String
unfolding resolve_addressing deliver_to
deliver env ack_ids now event rt =
    deliver_to env ack_ids now event (resolve_addressing rt.config event) rt
