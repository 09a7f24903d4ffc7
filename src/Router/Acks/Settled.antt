-- ===== src/Router/Acks/Settled.antt =====
-- What the end of a wait for an ack does to the durable queue.
use agent_wake.Prelude.{
  String, ◌≡◌, refl, ap, ◌∙◌, ◌≢◌, inl, inr, some, ◌==◌, eq_iff, Option-cases, Bool-cases,
}
use agent_wake.Store.State.{WakeStore, PendingEvent}
use agent_wake.Store.Queue.{delete_pending}
use agent_wake.Router.State.{Router, Waiter}
use agent_wake.Router.Send.{drop_ack}
use agent_wake.Router.Acks.{finish_wait, outcome_of, end_delivery, settle_pending}

store-drop_ack : (a : String) (rt : Router) → (drop_ack a rt).store ≡ rt.store
unfolding drop_ack
store-drop_ack a rt = refl

-- The end of a wait for a queued event removes its row, and no other row, if the answer was an ack;
-- after a nack, or none in time, the queue is as it was.
pub settled_iff_acked :
    (w : Waiter) (row : PendingEvent) (rt : Router) (st : WakeStore)
    → w.row ≡ some row
    → rt.store ≡ some st
    → ((outcome_of w.ack_id rt ≡ some "ack")
        → (finish_wait w rt).store ≡ some (delete_pending row.row_id st))
      × ((outcome_of w.ack_id rt ≢ some "ack") → (finish_wait w rt).store ≡ some st)
unfolding finish_wait settle_pending end_delivery drop_ack
settled_iff_acked w row rt st queued has = (
  λ h. rw (queued, h, has) refl,
  λ h. elim (Option-cases (outcome_of w.ack_id rt)) [
    | inl e ↦ rw (queued, e, has) refl
    | inr (r, e) ↦ elim (Bool-cases (r == "ack")) [
      | inl y ↦ absurd (h (e ∙ ap some ((eq_iff r "ack").0 y)))
      | inr n ↦ rw (queued, e, has, n) refl
    ]
  ],
)
