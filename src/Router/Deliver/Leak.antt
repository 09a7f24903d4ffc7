-- ===== src/Router/Deliver/Leak.antt =====
-- Where the durable queue puts an event: one row for a fan-out, and the row of an unrouted sender.
use agent_wake.Prelude.{
  ℕ, ◌+◌, ◌≤◌, ◌<◌, String, ◌≡◌, refl, ◌∙◌, ap, ◌⊎◌, inl, inr, true, false, Option, none, some,
  List, [], ◌∷◌, ◌++◌, arith, contains, length, any, keep, length-append, Bool-cases, Option-cases,
  eq_refl,
}
use agent_wake.Json.{Fields, text_at}
use agent_wake.Addressing.Resolve.{found}
use agent_wake.Store.State.{WakeStore, PendingEvent}
use agent_wake.Store.Queue.{enqueue_pending, pending_row, is_queued, claim_rows, claimable}
use agent_wake.Store.Queue.Claim.{claim-enqueue, pending-enqueue}
use agent_wake.Store.Queue.Enqueue.{enqueue_pending_cases}
use agent_wake.Router.State.{Router}
use agent_wake.Router.Undeliverable.{durable_modes, delivery_mode, undeliverable, queue_event}
use agent_wake.Router.Send.{Await}
use agent_wake.Router.Deliver.{undeliverable_all, deliver_to, deliver, resolve_addressing}

unfoldable pub queued_rows : Option WakeStore → ℕ
queued_rows none = 0
queued_rows (some st) = length st.pending

-- the event has a row
abbrev HasRow : String → Option WakeStore → Type 0
HasRow e none = ⊥
HasRow e (some st) = is_queued e st.pending ≡ true

is_queued-last :
    (rows : List PendingEvent) (r : PendingEvent) → is_queued r.event_id (rows ++ r ∷ []) ≡ true
unfolding is_queued any
is_queued-last [] r = rw eq_refl
is_queued-last (x ∷ rows) r = ground (arith, is_queued-last rows r)

-- an event with a row gets no other
repeat :
    (now : ℕ) (event : Fields) (d : Option String) (st : WakeStore)
    → is_queued (text_at "event_id" event) st.pending ≡ true
    → enqueue_pending now event d st ≡ (st, false)
unfolding enqueue_pending
repeat now event d st h = ground arith

store-queue_event :
    (now : ℕ) (event : Fields) (d : Option String) (st : WakeStore) (rt : Router)
    → (queue_event now event d st rt).store ≡ some (enqueue_pending now event d st).0
unfolding queue_event
store-queue_event now event d st rt = ground arith

kept-undeliverable :
    (now : ℕ) (event : Fields) (d : Option String) (rt : Router)
    → HasRow (text_at "event_id" event) rt.store
    → (undeliverable now event d rt).0.store ≡ rt.store
unfolding undeliverable
kept-undeliverable now event d rt h =
    elim (Bool-cases (contains durable_modes (delivery_mode rt.config event))) [
      | inr live ↦ rw (live, undeliverable)
      | inl durable ↦ elim (Option-cases rt.store) [
        | inl gone ↦ let k : HasRow (text_at "event_id" event) none = rw gone at h in absurd k
        | inr (st, has) ↦
            let queued : HasRow (text_at "event_id" event) (some st) = rw has at h in
            rw (durable, has, undeliverable)
              (store-queue_event now event d st rt
                ∙ ap (λ r. some r.0) (repeat now event d st queued))
      ]
    ]

-- one more row at most, and then the event has a row
abbrev Once : String → Option WakeStore → Option WakeStore → Type 0
Once e s s' = (s' ≡ s) ⊎ (HasRow e s' × (queued_rows s' ≤ queued_rows s + 1))

Once-enqueue :
    (now : ℕ) (event : Fields) (d : Option String) (st : WakeStore)
    → Once (text_at "event_id" event) (some st) (some (enqueue_pending now event d st).0)
unfolding queued_rows
Once-enqueue now event d st = elim (Bool-cases (enqueue_pending now event d st).1) [
  | inr refused ↦ inl (ap some ((enqueue_pending_cases now event d st).1 refused))
  | inl accepted ↦
      let e = pending-enqueue now event d st accepted in
      inr (
        rw e (unfold pending_row in is_queued-last st.pending (pending_row now event d st)),
        rw (e, length-append) (omega arith),
      )
]

Once-undeliverable :
    (now : ℕ) (event : Fields) (d : Option String) (rt : Router)
    → Once (text_at "event_id" event) rt.store (undeliverable now event d rt).0.store
unfolding undeliverable
Once-undeliverable now event d rt =
    elim (Bool-cases (contains durable_modes (delivery_mode rt.config event))) [
      | inr live ↦ rw (live, undeliverable) (inl refl)
      | inl durable ↦ elim (Option-cases rt.store) [
        | inl gone ↦ rw (durable, gone, undeliverable) (inl gone)
        | inr (st, has) ↦
            rw (durable, has, undeliverable) (rw store-queue_event (Once-enqueue now event d st))
      ]
    ]

kept-all :
    (now : ℕ) (event : Fields) (names : List String) (rt : Router)
    → HasRow (text_at "event_id" event) rt.store
    → (undeliverable_all now event names rt).0.store ≡ rt.store
unfolding undeliverable_all
kept-all now event [] rt h = refl
kept-all now event (n ∷ names) rt h =
    let k = kept-undeliverable now event (some n) rt h in
    kept-all now event names (undeliverable now event (some n) rt).0 (rw k h) ∙ k

-- However many destinations of an event have no live subscriber, the durable queue takes at most one
-- row for it.
pub fan_out_one_row :
    (now : ℕ) (event : Fields) (names : List String) (rt : Router)
    → queued_rows (undeliverable_all now event names rt).0.store ≤ queued_rows rt.store + 1
unfolding undeliverable_all
fan_out_one_row now event [] rt = omega arith
fan_out_one_row now event (n ∷ names) rt =
    let next = (undeliverable now event (some n) rt).0 in
    elim (Once-undeliverable now event (some n) rt) [
      | inl same ↦ let ih = fan_out_one_row now event names next in rw same at ih
      | inr (has, more) ↦ rw (kept-all now event names next has) more
    ]

as_source :
    (now : ℕ) (event : Fields) (st : WakeStore)
    → enqueue_pending now event none st
      ≡ enqueue_pending now event (some (text_at "source" event)) st
unfolding enqueue_pending
as_source now event st = refl

-- An event of a sender that has no route, but asks for durable delivery, is queued for the
-- destination that is spelled like the sender: if the queue accepts it, the next claim of that
-- destination before its expiry hands it out, behind the rows that were claimable there, whether or
-- not a route leads there, provided that those rows are fewer than the limit of the claim.
pub unrouted_event_is_claimed :
    (env : String → Await) (ack_ids : String → String) (now now' limit : ℕ) (event : Fields)
    (rt : Router) (st : WakeStore)
    → resolve_addressing rt.config event ≡ found []
    → contains durable_modes (delivery_mode rt.config event) ≡ true
    → rt.store ≡ some st
    → (enqueue_pending now event none st).1 ≡ true
    → now' < now + st.limits.pending_ttl_seconds
    → length (keep (claimable now' (text_at "source" event)) st.pending) < limit
    → (st' : WakeStore) × ((deliver env ack_ids now event rt).0.store ≡ some st')
      × (claim_rows now' (text_at "source" event) limit st'
          ≡ claim_rows now' (text_at "source" event) limit st
            ++ pending_row now event (some (text_at "source" event)) st ∷ [])
unfolding deliver deliver_to undeliverable
unrouted_event_is_claimed env ack_ids now now' limit event rt st nowhere durable has accepted live
      room =
    (
      (enqueue_pending now event none st).0,
      rw (nowhere, deliver)
          (rw (durable, has, undeliverable) (store-queue_event now event none st rt)),
      rw as_source (
          claim-enqueue now now' limit event (text_at "source" event) st (rw as_source at accepted)
            live room),
    )
