-- ===== src/Router/Drain.antt =====
-- The drain of router.py: the queued events of a session that has just subscribed.
pub mod Rows
pub mod Kept
use Prim.Native.String.{◌++◌ as text_append}
use agent_wake.Prelude.{
  ℕ, ◌+◌, ◌-◌, String, Bool, true, false, Option, none, some, List, [], ◌∷◌, ◌==◌, if◌then◌else◌,
  ltb,
}
use agent_wake.Json.{decimal}
use agent_wake.Addressing.Tables.{Destination, named, destination_table}
use agent_wake.Store.State.{WakeStore, PendingEvent}
use agent_wake.Store.Queue.{claim_pending, delete_pending}
use agent_wake.Store.DeadLetters.{insert_dead_letter}
use agent_wake.Router.State.{Router, Subscriber, subscriber}
use agent_wake.Router.Subscribe.{subscriber_for, evict}
use agent_wake.Router.Send.{
  Await, sent, failed, register_ack, drop_ack, start_delivery, spawn_waiter,
}

unfoldable pub no_ack_error : ℕ → String
no_ack_error n =
    text_append "no ack after " (text_append (decimal n) " next-session delivery attempt(s)")

-- a row with too many attempts becomes a dead letter
unfoldable pub exhaust : String → ℕ → PendingEvent → WakeStore → WakeStore
unfolding no_ack_error
exhaust dl_id now row st = delete_pending row.row_id (
    insert_dead_letter dl_id now "next_session" row.source row.event_id row.event
      (some (no_ack_error (row.attempts - 1))) (row.attempts - 1) st)

-- the frame of a row; the result is whether it was written
unfoldable pub send_row : Await → String → Subscriber → PendingEvent → Router → Router × Bool
send_row (failed others) ack_id sub row rt =
    (evict sub.session_id (drop_ack ack_id (others (register_ack ack_id rt))), false)
send_row (sent others) ack_id sub row rt = (
  spawn_waiter row.source ack_id sub.session_id (some row)
      (start_delivery sub.session_id (others (register_ack ack_id rt))),
  true,
)

-- What the drain reads from its surroundings, for each row id: the clock, new ULIDs, and what happens
-- at its send.
pub record Surroundings : Type 0 where
  pub now : ℕ → ℕ
  pub dead_letter_id : ℕ → String
  pub ack_id : ℕ → String
  pub await_send : ℕ → Await

-- `none` is the assertion, which the drain does not meet
unfoldable pub send_pending : Surroundings → Subscriber → PendingEvent → Router → Router × Bool
unfolding exhaust send_row
send_pending env sub row rt = elim rt.store [
  | none ↦ (rt, false)
  | some st ↦
      if ltb st.limits.pending_max_attempts row.attempts
      then (
        record rt {
          store = some (exhaust (env.dead_letter_id row.row_id) (env.now row.row_id) row st);
        },
        false,
      )
      else send_row (env.await_send row.row_id) (env.ack_id row.row_id) sub row rt
]

abbrev pub counted : Bool → ℕ → ℕ
counted true n = n + 1
counted false n = n

module _ (env : Surroundings) (sub : Subscriber) where
  -- the loop over the claimed rows
  unfoldable pub send_rows : List PendingEvent → Router × ℕ → Router × ℕ
  send_rows [] (rt, n) = (rt, n)
  send_rows (row ∷ rows) (rt, n) =
      let (rt', ok) = send_pending env sub row rt in send_rows rows (rt', counted ok n)

  unfoldable pub drain_claimed : ℕ → String → Router × ℕ → Router × ℕ
  unfolding send_rows
  drain_claimed now name (rt, n) = elim rt.store [
    | none ↦ (rt, n)
    | some st ↦
        let (st', rows) = claim_pending now name 100 st in
        send_rows rows (record rt { store = some st' }, n)
  ]

  abbrev pub is_server : Option Subscriber → Bool
  is_server none = false
  is_server (some s) = s.session_id == sub.session_id

  -- one round of the loop over the destinations, only for those that this subscriber serves now
  unfoldable pub drain_name : ℕ → List Destination → String → Router × ℕ → Router × ℕ
  unfolding drain_claimed
  drain_name now table name (rt, n) = elim (named name table) [
    | none ↦ (rt, n)
    | some dest ↦
        if is_server (subscriber_for dest rt) then drain_claimed now name (rt, n) else (rt, n)
  ]

  unfoldable pub drain_names : ℕ → List Destination → List String → Router × ℕ → Router × ℕ
  unfolding drain_name
  drain_names now table [] acc = acc
  drain_names now table (name ∷ names) acc =
      drain_names now table names (drain_name now table name acc)

-- `now` is the reading of the clock at the claims
unfoldable pub drain_pending : Surroundings → ℕ → String → Router → Router × ℕ
unfolding drain_names
drain_pending env now session_id rt = elim rt.store [
  | none ↦ (rt, 0)
  | some st ↦ elim (subscriber session_id rt.subscribers) [
    | none ↦ (rt, 0)
    | some sub ↦ drain_names env sub now (destination_table rt.config) sub.destinations (rt, 0)
  ]
]
