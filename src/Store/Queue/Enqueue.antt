-- ===== src/Store/Queue/Enqueue.antt =====
-- What `enqueue_pending` adds, and when it refuses.
use agent_wake.Prelude.{
  ℕ, String, ◌≡◌, ◌↔◌, true, false, ◌||◌, Option, [], ◌∷◌, ◌++◌, ◌==◌, arith, leb, length,
}
use agent_wake.Json.{Fields, text_at}
use agent_wake.Store.State.{WakeStore}
use agent_wake.Store.Queue.{enqueue_pending, is_queued, pending_row}

-- An event is refused, and the store left as it was, exactly when it has no id, the queue is full, or
-- its id is queued already; otherwise one row, at the end, is all that changes in the table.
pub enqueue_pending_cases :
    (now : ℕ) (event : Fields) (destination : Option String) (st : WakeStore)
    → let r = enqueue_pending now event destination st in
      let refuse =
        text_at "event_id" event == ""
        || leb st.limits.pending_max_rows (length st.pending)
        || is_queued (text_at "event_id" event) st.pending in
      ((r.1 ≡ true) ↔ (refuse ≡ false))
      × (r.1 ≡ false → r.0 ≡ st)
      × (r.1 ≡ true → r.0.pending ≡ st.pending ++ (pending_row now event destination st ∷ []))
unfolding enqueue_pending
enqueue_pending_cases now event destination st = ground arith
