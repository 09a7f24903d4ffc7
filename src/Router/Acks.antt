-- ===== src/Router/Acks.antt =====
-- Acknowledgements of router.py: the futures of the acks, the end of a wait, and what it does to a
-- queued event.
pub mod Settled
use agent_wake.Prelude.{
  ℕ, suc, ◌-◌, String, ◌≡◌, Bool, true, false, ◌&&◌, not, Option, none, some, List, [], ◌∷◌, ◌==◌,
  if◌then◌else◌, find, keep, map,
}
use agent_wake.Store.State.{WakeStore, PendingEvent}
use agent_wake.Store.Queue.{delete_pending}
use agent_wake.Router.State.{Router, Subscriber, Waiter, AckFuture}
use agent_wake.Router.Send.{drop_ack}

-- `sub.in_flight -= 1` of a session that has deliveries under way; the subtraction stops at 0
unfoldable pub end_delivery : String → Router → Router
end_delivery session_id rt = record rt {
  subscribers =
      map (λ s. if s.session_id == session_id then record s { in_flight = s.in_flight - 1 } else s)
        rt.subscribers;
}

is_done : AckFuture → Bool
is_done f = elim f.result [ none ↦ false | some r ↦ true ]

-- the result of the first frame for the ack stays
unfoldable pub resolve_ack : String → String → Router → Router
unfolding is_done
resolve_ack ack_id frame_type rt = record rt {
  pending_acks =
      map
        (λ f.
          if f.ack_id == ack_id && not (is_done f)
          then record f { result = some frame_type }
          else f)
        rt.pending_acks;
}

-- the result that `wait_for` reads, `none` for a timeout
unfoldable pub outcome_of : String → Router → Option String
outcome_of ack_id rt = elim (find (λ f. f.ack_id == ack_id) rt.pending_acks) [
  | none ↦ none
  | some f ↦ f.result
]

unfoldable pub settle_pending : PendingEvent → Option String → Router → Router
settle_pending row result rt = elim rt.store [
  | none ↦ rt
  | some st ↦ elim result [
    | none ↦ rt
    | some r ↦ if r == "ack" then record rt { store = some (delete_pending row.row_id st) } else rt
  ]
]

abbrev end_if_answered : Option String → String → Router → Router
end_if_answered none session_id rt = rt
end_if_answered (some r) session_id rt = end_delivery session_id rt

abbrev call_back : Option PendingEvent → Option String → Router → Router
call_back none result rt = rt
call_back (some row) result rt = settle_pending row result rt

-- The rest of `_wait_for_ack` once the wait is over.
unfoldable pub finish_wait : Waiter → Router → Router
unfolding outcome_of settle_pending end_delivery
finish_wait w rt =
    let outcome = outcome_of w.ack_id rt in
    call_back w.row outcome (end_if_answered outcome w.session_id (drop_ack w.ack_id rt))
