-- ===== src/Router/Deliver/Status.antt =====
-- What the status of `deliver` promises.
use agent_wake.Prelude.{
  ℕ, zero, suc, ◌+◌, String, ◌≡◌, ◌≢◌, refl, ◌⊎◌, inl, inr, true, Option, none, some, List, [], ◌∷◌,
  arith, contains, length, length-append, Bool-cases, Option-cases,
}
use agent_wake.Json.{Fields, text_at}
use agent_wake.Addressing.Tables.{Destination}
use agent_wake.Addressing.Resolve.{found, destination_not_routed, principal_not_routed}
use agent_wake.Store.State.{WakeStore}
use agent_wake.Store.Queue.{enqueue_pending}
use agent_wake.Router.State.{Router, Subscriber}
use agent_wake.Router.Subscribe.{subscriber_for}
use agent_wake.Router.Undeliverable.{durable_modes, delivery_mode, undeliverable, queue_event}
use agent_wake.Router.Send.{Await, sent, failed, send_to, register_ack}
use agent_wake.Router.Deliver.{
  Fanout, fan_out, fan_out_one, undeliverable_all, overall, deliver_to, deliver, resolve_addressing,
}

-- The event asks for durable delivery under the router's configuration, and there is a store.
pub record IsDurable (event : Fields) (rt : Router) : Type 0 where
  pub mode : contains durable_modes (delivery_mode rt.config event) ≡ true
  pub stored : rt.store ≢ none

-- The other tasks neither take the store away nor change the mode of the event.
abbrev pub IsCalm : Fields → Await → Type 0
IsCalm event (sent others) = (rt : Router) → IsDurable event rt → IsDurable event (others rt)
IsCalm event (failed others) = (rt : Router) → IsDurable event rt → IsDurable event (others rt)

same-IsDurable :
    (event : Fields) (r r' : Router)
    → r'.config ≡ r.config
    → r'.store ≡ r.store
    → IsDurable event r
    → IsDurable event r'
same-IsDurable event r r' c s d = record { mode = rw c d.mode; stored = rw s d.stored }

send_to-IsDurable :
    (event : Fields) (a : Await) (ack_id : String) (sub : Subscriber) (dest : Destination)
    (sender : String) (rt : Router)
    → IsCalm event a
    → IsDurable event rt
    → IsDurable event (send_to a ack_id sub dest sender rt).0
unfolding send_to
send_to-IsDurable event (sent others) ack_id sub dest sender rt calm d =
    same-IsDurable event (others (register_ack ack_id rt)) _ refl refl
      (calm (register_ack ack_id rt) (same-IsDurable event rt _ refl refl d))
send_to-IsDurable event (failed others) ack_id sub dest sender rt calm d =
    same-IsDurable event (others (register_ack ack_id rt)) _ refl refl
      (calm (register_ack ack_id rt) (same-IsDurable event rt _ refl refl d))

queue_event-IsDurable :
    (now : ℕ) (event : Fields) (name : Option String) (st : WakeStore) (rt : Router)
    → IsDurable event rt
    → IsDurable event (queue_event now event name st rt)
unfolding queue_event
queue_event-IsDurable now event name st rt d =
    elim (Bool-cases (enqueue_pending now event name st).1) [
      | inl yes' ↦ rw (yes', queue_event) (record { mode = d.mode; stored = cc })
      | inr no' ↦ rw (no', queue_event) (record { mode = d.mode; stored = cc })
    ]

undeliverable-IsDurable :
    (now : ℕ) (event : Fields) (name : Option String) (rt : Router)
    → IsDurable event rt
    → IsDurable event (undeliverable now event name rt).0
      × ((undeliverable now event name rt).1 ≡ "queued_next_session")
unfolding undeliverable
undeliverable-IsDurable now event name rt d = elim (Option-cases rt.store) [
  | inl gone ↦ absurd (d.stored gone)
  | inr (st, has) ↦
      rw (d.mode, has, undeliverable) (queue_event-IsDurable now event name st rt d, refl)
]

module _ (env : String → Await) (ack_ids : String → String) (sender : String) where
  count_one :
      (d : Destination) (f : Fanout)
      → (fan_out_one env ack_ids sender d f).delivered
          + length (fan_out_one env ack_ids sender d f).missed
        ≡ f.delivered + length f.missed + 1
  unfolding fan_out_one
  count_one d f = ground (arith, length-append f.missed (d.name ∷ []))

  -- every destination is counted once, as delivered or as missed
  pub fan_out-count :
      (dests : List Destination) (f : Fanout)
      → (fan_out env ack_ids sender dests f).delivered
          + length (fan_out env ack_ids sender dests f).missed
        ≡ f.delivered + length f.missed + length dests
  unfolding fan_out
  fan_out-count [] f = omega arith
  fan_out-count (d ∷ dests) f =
      omega (arith, fan_out-count dests (fan_out_one env ack_ids sender d f), count_one d f)

  IsDurable-fan_out_one :
      (event : Fields) (d : Destination) (f : Fanout)
      → IsCalm event (env d.name)
      → IsDurable event f.router
      → IsDurable event (fan_out_one env ack_ids sender d f).router
  unfolding fan_out_one
  IsDurable-fan_out_one event dest f calm d = elim (Option-cases (subscriber_for dest f.router)) [
    | inl idle ↦ rw (idle, fan_out_one) d
    | inr (sub, is) ↦
        let k =
          send_to-IsDurable event (env dest.name) (ack_ids dest.name) sub dest sender f.router calm
            d in
        elim (Bool-cases (send_to (env dest.name) (ack_ids dest.name) sub dest sender f.router).1) [
          | inl ok ↦ rw (is, fan_out_one) (rw ok k)
          | inr lost ↦ rw (is, fan_out_one) (rw lost k)
        ]
  ]

  fan_out-IsDurable :
      (event : Fields)
      → ((n : String) → IsCalm event (env n))
      → (dests : List Destination) (f : Fanout) → IsDurable event f.router
      → IsDurable event (fan_out env ack_ids sender dests f).router
  unfolding fan_out
  fan_out-IsDurable event calm [] f d = d
  fan_out-IsDurable event calm (dest ∷ dests) f d =
      fan_out-IsDurable event calm dests (fan_out_one env ack_ids sender dest f)
        (IsDurable-fan_out_one event dest f (calm dest.name) d)

-- a durable event makes the first missed destination report the queue
missed-queued :
    (now : ℕ) (event : Fields) (name : String) (names : List String) (rt : Router)
    → IsDurable event rt
    → contains (undeliverable_all now event (name ∷ names) rt).1 "queued_next_session" ≡ true
unfolding undeliverable_all contains
missed-queued now event name names rt d = rw (undeliverable-IsDurable now event (some name) rt d).1

overall-queued :
    (n : ℕ) (statuses : List String)
    → (n ≡ 0 → contains statuses "queued_next_session" ≡ true)
    → (overall n statuses ≡ "queued") ⊎ (overall n statuses ≡ "queued_next_session")
unfolding overall
overall-queued zero statuses h = inr (rw (h refl))
overall-queued (suc n) statuses h = inl refl

missed-cases :
    (now : ℕ) (event : Fields) (n k : ℕ) (missed : List String) (rt : Router)
    → IsDurable event rt
    → n + length missed ≡ suc k
    → (n ≡ 0)
    → contains (undeliverable_all now event missed rt).1 "queued_next_session" ≡ true
missed-cases now event n k [] rt d e z = absurd (omega arith)
missed-cases now event n k (m ∷ ms) rt d e z = missed-queued now event m ms rt d

-- If the router has a store, an event that asks for durable delivery, and whose addressing is not
-- refused, is never reported as dropped: its status is `queued` or `queued_next_session`, whichever
-- sends fail, as long as the tasks that run during the sends do not take the store away or change the
-- event's mode.
pub durable_never_dropped :
    (env : String → Await) (ack_ids : String → String) (now : ℕ) (event : Fields) (rt : Router)
    (ds : List Destination)
    → ((n : String) → IsCalm event (env n))
    → IsDurable event rt
    → resolve_addressing rt.config event ≡ found ds
    → ((deliver env ack_ids now event rt).1 ≡ "queued")
      ⊎ ((deliver env ack_ids now event rt).1 ≡ "queued_next_session")
unfolding deliver deliver_to
durable_never_dropped env ack_ids now event rt [] calm d e =
    rw (e, deliver) (inr (undeliverable-IsDurable now event none rt d).1)
durable_never_dropped env ack_ids now event rt (x ∷ ds) calm d e =
    let start : Fanout = record { router = rt; delivered = 0; missed = [] } in
    let f = fan_out env ack_ids (text_at "source" event) (x ∷ ds) start in
    rw (e, deliver)
      (overall-queued f.delivered (undeliverable_all now event f.missed f.router).1 (
        missed-cases now event f.delivered (length ds) f.missed f.router
          (fan_out-IsDurable env ack_ids (text_at "source" event) event calm (x ∷ ds) start d)
          (omega (arith, fan_out-count env ack_ids (text_at "source" event) (x ∷ ds) start))))

-- A refused addressing is reported by its code, and nothing else happens.
pub deliver_refused :
    (env : String → Await) (ack_ids : String → String) (now : ℕ) (event : Fields) (rt : Router)
    → (resolve_addressing rt.config event ≡ destination_not_routed
        → deliver env ack_ids now event rt ≡ (rt, "destination_not_routed"))
      × (resolve_addressing rt.config event ≡ principal_not_routed
          → deliver env ack_ids now event rt ≡ (rt, "principal_not_routed"))
unfolding deliver deliver_to
deliver_refused env ack_ids now event rt = (λ e. rw (e, deliver), λ e. rw (e, deliver))
