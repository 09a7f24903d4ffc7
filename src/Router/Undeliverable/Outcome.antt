-- ===== src/Router/Undeliverable/Outcome.antt =====
-- What becomes of an event that nobody takes.
use agent_wake.Prelude.{
  ℕ, ◌≤◌, String, ◌≡◌, true, false, ◌⊎◌, Option, none, some, arith, contains, length, le→leb,
}
use agent_wake.Json.{Fields}
use agent_wake.Store.State.{WakeStore}
use agent_wake.Store.Queue.{enqueue_pending}
use agent_wake.Router.State.{Router}
use agent_wake.Router.Undeliverable.{durable_modes, delivery_mode, queue_event, undeliverable}

-- An event that asks for durable delivery is reported as queued even when the queue is full and
-- refuses it: then no table of the store changes.
pub full_queue_reports_queued :
    (now : ℕ) (event : Fields) (destination : Option String) (rt : Router) (st : WakeStore)
    → contains durable_modes (delivery_mode rt.config event) ≡ true
    → rt.store ≡ some st
    → st.limits.pending_max_rows ≤ length st.pending
    → ((undeliverable now event destination rt).1 ≡ "queued_next_session")
      × ((undeliverable now event destination rt).0.store ≡ some st)
unfolding undeliverable
full_queue_reports_queued now event destination rt st durable has full =
    let refused : (enqueue_pending now event destination st) ≡ (st, false) =
      unfold enqueue_pending in
      ground (arith, le→leb st.limits.pending_max_rows (length st.pending)) in
    (rw (durable, has, undeliverable), rw (durable, has, undeliverable) (rw (refused, queue_event)))

-- Without a request for durable delivery, or without a store, nothing changes and the event is
-- reported as dropped.
pub live_only_drops :
    (now : ℕ) (event : Fields) (destination : Option String) (rt : Router)
    → (contains durable_modes (delivery_mode rt.config event) ≡ false) ⊎ (rt.store ≡ none)
    → undeliverable now event destination rt ≡ (rt, "no_subscriber")
unfolding undeliverable
live_only_drops now event destination rt h = ground arith
