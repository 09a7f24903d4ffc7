-- ===== src/Router/Drain/Kept.antt =====
-- What the drain leaves of the queued events.
use agent_wake.Prelude.{
  ℕ, String, ◌≡◌, inl, inr, none, some, List, [], ◌∷◌, ltb, Option-cases, Bool-cases,
}
use agent_wake.Addressing.Tables.{Destination, named, destination_table}
use agent_wake.Store.State.{PendingEvent}
use agent_wake.Store.Queue.{claim_pending}
use agent_wake.Router.State.{Router, Subscriber, subscriber}
use agent_wake.Router.Subscribe.{subscriber_for, evict, unsubscribe}
use agent_wake.Router.Send.{
  Await, sent, failed, register_ack, drop_ack, start_delivery, spawn_waiter,
}
use agent_wake.Router.Drain.{
  Surroundings, counted, is_server, send_row, send_pending, send_rows, drain_claimed, drain_name,
  drain_names, drain_pending,
}
use agent_wake.Router.Drain.Rows.{Named, Kept, Kept-claim, Kept-exhaust}

-- what the other tasks do during a send
unfoldable pub others_of : Await → Router → Router
others_of (sent f) = f
others_of (failed f) = f

module _ (names : ℕ → String) (e : String) where
  -- what the other tasks do during a send keeps the event
  abbrev pub Calm : Await → Type 0
  Calm a = (rt : Router) → Kept names e rt.store → Kept names e (others_of a rt).store

  Kept-send_row :
      (a : Await) (ack_id : String) (sub : Subscriber) (row : PendingEvent) (rt : Router)
      → Calm a
      → Kept names e rt.store
      → Kept names e (send_row a ack_id sub row rt).0.store
  unfolding send_row others_of evict unsubscribe drop_ack spawn_waiter start_delivery register_ack
  Kept-send_row (sent f) ack_id sub row rt calm h = calm (register_ack ack_id rt) h
  Kept-send_row (failed f) ack_id sub row rt calm h = calm (register_ack ack_id rt) h

  module _ (env : Surroundings) (calm : (i : ℕ) → Calm (env.await_send i)) (sub : Subscriber) where
    Kept-send_pending :
        (row : PendingEvent) (rt : Router)
        → row.event_id ≡ names row.row_id
        → Kept names e rt.store
        → Kept names e (send_pending env sub row rt).0.store
    unfolding send_pending
    Kept-send_pending row rt here h = elim (Option-cases rt.store) [
      | inl gone ↦ let k : Kept names e none = rw gone at h in absurd k
      | inr (st, has) ↦
          let k : Kept names e (some st) = rw has at h in
          elim (Bool-cases (ltb st.limits.pending_max_attempts row.attempts)) [
            | inl y ↦
                rw (has, y, send_pending)
                  (Kept-exhaust names e (env.dead_letter_id row.row_id) (env.now row.row_id) row st
                    here k)
            | inr n ↦
                rw (has, n, send_pending)
                  (Kept-send_row (env.await_send row.row_id) (env.ack_id row.row_id) sub row rt
                    (calm row.row_id) h)
          ]
    ]

    Kept-send_rows :
        (rows : List PendingEvent) (rt : Router) (n : ℕ)
        → Named names rows
        → Kept names e rt.store
        → Kept names e (send_rows env sub rows (rt, n)).0.store
    unfolding send_rows
    Kept-send_rows [] rt n here h = h
    Kept-send_rows (row ∷ rows) rt n here h =
        Kept-send_rows rows (send_pending env sub row rt).0
          (counted (send_pending env sub row rt).1 n) here.1 (Kept-send_pending row rt here.0 h)

    Kept-drain_claimed :
        (now : ℕ) (name : String) (rt : Router) (n : ℕ)
        → Kept names e rt.store
        → Kept names e (drain_claimed env sub now name (rt, n)).0.store
    unfolding drain_claimed
    Kept-drain_claimed now name rt n h = elim (Option-cases rt.store) [
      | inl gone ↦ let k : Kept names e none = rw gone at h in absurd k
      | inr (st, has) ↦
          let k : Kept names e (some st) = rw has at h in
          let (kept, alike) = Kept-claim names e now 100 name st k in
          rw (has, drain_claimed)
            (Kept-send_rows (claim_pending now name 100 st).1
              (record rt { store = some (claim_pending now name 100 st).0 }) n alike kept)
    ]

    Kept-drain_name :
        (now : ℕ) (table : List Destination) (name : String) (rt : Router) (n : ℕ)
        → Kept names e rt.store
        → Kept names e (drain_name env sub now table name (rt, n)).0.store
    unfolding drain_name
    Kept-drain_name now table name rt n h = elim (Option-cases (named name table)) [
      | inl gone ↦ rw (gone, drain_name) h
      | inr (dest, has) ↦ elim (Bool-cases (is_server env sub (subscriber_for dest rt))) [
        | inl y ↦ rw (has, y, drain_name) (Kept-drain_claimed now name rt n h)
        | inr idle ↦ rw (has, idle, drain_name) h
      ]
    ]

    Kept-drain_names :
        (now : ℕ) (table : List Destination) (ds : List String) (rt : Router) (n : ℕ)
        → Kept names e rt.store
        → Kept names e (drain_names env sub now table ds (rt, n)).0.store
    unfolding drain_names
    Kept-drain_names now table [] rt n h = h
    Kept-drain_names now table (d ∷ ds) rt n h =
        let next = drain_name env sub now table d (rt, n) in
        Kept-drain_names now table ds next.0 next.1 (Kept-drain_name now table d rt n h)

-- Row ids name events, and the event `e` has a queued row or a dead letter. If each send's other tasks
-- leave that so, it is so after a drain: no event is lost, whether its frame is written, the session
-- dies, or its attempts are used up.
pub drain_loses_nothing :
    (names : ℕ → String) (e : String) (env : Surroundings)
    → ((i : ℕ) → Calm names e (env.await_send i))
    → (now : ℕ) (session_id : String) (rt : Router) → Kept names e rt.store
    → Kept names e (drain_pending env now session_id rt).0.store
unfolding drain_pending
drain_loses_nothing names e env calm now session_id rt h = elim (Option-cases rt.store) [
  | inl gone ↦ rw (gone, drain_pending) h
  | inr (st, has) ↦ elim (Option-cases (subscriber session_id rt.subscribers)) [
    | inl none_here ↦ rw (has, none_here, drain_pending) h
    | inr (sub, here) ↦
        rw (has, here, drain_pending)
          (Kept-drain_names names e env calm sub now (destination_table rt.config) sub.destinations
            rt 0 h)
  ]
]
