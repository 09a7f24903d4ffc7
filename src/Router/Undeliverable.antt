-- ===== src/Router/Undeliverable.antt =====
-- Events that no live subscriber takes: the delivery mode and the durable queue of router.py.
pub mod Outcome
use agent_wake.Prelude.{
  ℕ, ◌+◌, String, Bool, true, false, ◌||◌, Option, none, some, List, [], ◌∷◌, ◌==◌, if◌then◌else◌,
  contains,
}
use agent_wake.Json.{Json, Fields, get, as_obj, as_str, str}
use agent_wake.Addressing.Legacy.{table}
use agent_wake.Store.State.{WakeStore}
use agent_wake.Store.Queue.{enqueue_pending}
use agent_wake.Router.State.{Router, count_of, set_count, pop_count}

-- _DURABLE_MODES and VALID_DELIVERY_MODES
abbrev pub durable_modes : List String
durable_modes = "next_session" ∷ "managed_session" ∷ []

abbrev pub valid_delivery_modes : List String
valid_delivery_modes = "live_only" ∷ durable_modes

-- a valid mode, else `live_only`
unfoldable pub or_live_only : Option String → String
or_live_only none = "live_only"
or_live_only (some mode) = if contains valid_delivery_modes mode then mode else "live_only"

-- `meta["delivery"]`, if that is a text
unfoldable pub requested_mode : Fields → Option String
requested_mode event = elim (as_obj (get "meta" event)) [
  | none ↦ none
  | some meta ↦ as_str (get "delivery" meta)
]

unfoldable pub delivery_mode : Fields → Fields → String
unfolding or_live_only requested_mode
delivery_mode config event = elim (requested_mode event) [
  | some requested ↦ or_live_only (some requested)
  | none ↦ or_live_only (as_str (get "default_delivery" (table "state" config)))
]

abbrev or_empty : Option String → String
or_empty none = ""
or_empty (some s) = s

unfoldable pub note_queued_without_delivery : Option String → Router → Router
note_queued_without_delivery destination rt = record rt {
  consecutive_queued =
      set_count (or_empty destination) (count_of (or_empty destination) rt.consecutive_queued + 1)
        rt.consecutive_queued;
}

unfoldable pub note_delivered : String → Router → Router
note_delivered destination rt = record rt {
  consecutive_queued = pop_count destination rt.consecutive_queued;
}

-- with a store: the refusal of a duplicate or of a full queue is logged, and the status is the same
unfoldable pub queue_event : ℕ → Fields → Option String → WakeStore → Router → Router
unfolding note_queued_without_delivery
queue_event now event destination st rt =
    let (st', accepted) = enqueue_pending now event destination st in
    let rt' = record rt { store = some st' } in
    if accepted then note_queued_without_delivery destination rt' else rt'

unfoldable pub undeliverable : ℕ → Fields → Option String → Router → Router × String
unfolding queue_event
undeliverable now event destination rt =
    if contains durable_modes (delivery_mode rt.config event)
    then elim rt.store [
      | none ↦ (rt, "no_subscriber")
      | some st ↦ (queue_event now event destination st rt, "queued_next_session")
    ]
    else (rt, "no_subscriber")
