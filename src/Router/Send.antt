-- ===== src/Router/Send.antt =====
-- `_send_to` of router.py: one wake frame to one subscriber.
use agent_wake.Prelude.{
  ◌+◌, String, Bool, true, false, not, Option, none, [], ◌∷◌, ◌++◌, ◌==◌, if◌then◌else◌, map, keep,
}
use agent_wake.Addressing.Tables.{Destination}
use agent_wake.Store.State.{PendingEvent}
use agent_wake.Router.State.{Router, Subscriber}
use agent_wake.Router.Subscribe.{evict}
use agent_wake.Router.Undeliverable.{note_delivered}

-- What happens while `send_frame` is awaited: what the other tasks do to the router, and whether the
-- frame is written or an OSError is raised.
pub data Await : Type 0 where
  sent : (Router → Router) → Await
  failed : (Router → Router) → Await

unfoldable pub register_ack : String → Router → Router
register_ack ack_id rt = record rt {
  pending_acks = rt.pending_acks ++ record { ack_id = ack_id; result = none } ∷ [];
}

unfoldable pub drop_ack : String → Router → Router
drop_ack ack_id rt = record rt {
  pending_acks = keep (λ f. not (f.ack_id == ack_id)) rt.pending_acks;
}

-- `sub.in_flight += 1` on the subscriber of a session
unfoldable pub start_delivery : String → Router → Router
start_delivery session_id rt = record rt {
  subscribers =
      map (λ s. if s.session_id == session_id then record s { in_flight = s.in_flight + 1 } else s)
        rt.subscribers;
}

unfoldable pub spawn_waiter : String → String → String → Option PendingEvent → Router → Router
spawn_waiter source ack_id session_id row rt = record rt {
  background_tasks =
      rt.background_tasks
      ++ record { source = source; ack_id = ack_id; session_id = session_id; row = row } ∷ [];
}

-- The result is whether the frame was written.
unfoldable pub send_to : Await → String → Subscriber → Destination → String → Router → Router × Bool
unfolding register_ack drop_ack start_delivery spawn_waiter note_delivered evict
send_to (failed others) ack_id sub dest sender_name rt =
    (evict sub.session_id (drop_ack ack_id (others (register_ack ack_id rt))), false)
send_to (sent others) ack_id sub dest sender_name rt = (
  spawn_waiter sender_name ack_id sub.session_id none
      (note_delivered dest.name (start_delivery sub.session_id (others (register_ack ack_id rt)))),
  true,
)
