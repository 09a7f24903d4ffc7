-- ===== src/Tests/Router.antt =====
-- The router at one session and a database of two queued events.
use mathlib.Core.List.{reverse}
use agent_wake.Prelude.{
  ℕ, ◌+◌, ◌≤◌, String, ◌≡◌, refl, ◌⊎◌, true, false, none, some, List, [], ◌∷◌, ◌++◌, arith,
  contains, eqb, find, any, keep,
}
use agent_wake.Json.{text_at, as_obj, get, as_str, as_arr, py_str, elements}
use agent_wake.Addressing.Tables.{Destination, destination_table, route_table}
use agent_wake.Addressing.Resolve.{resolve, routed_destinations}
use agent_wake.Store.State.{WakeStore}
use agent_wake.Store.Queue.{claim_rows, pending_row, enqueue_pending, is_queued}
use agent_wake.Router.State.{Router}
use agent_wake.Router.Subscribe.{subscriber_for}
use agent_wake.Router.Subscribe.Serving.{subscriber_for-Chosen, Chosen}
use agent_wake.Router.Undeliverable.{undeliverable, delivery_mode}
use agent_wake.Router.Undeliverable.Outcome.{full_queue_reports_queued}
use agent_wake.Router.Send.{Await, failed}
use agent_wake.Router.Deliver.{deliver, undeliverable_all, resolve_addressing}
use agent_wake.Router.Deliver.Status.{durable_never_dropped}
use agent_wake.Router.Deliver.Leak.{fan_out_one_row, queued_rows, unrouted_event_is_claimed}
use agent_wake.Router.Drain.{Surroundings, drain_pending}
use agent_wake.Router.Drain.Rows.{Kept, is_kept}
use agent_wake.Router.Drain.Kept.{others_of, drain_loses_nothing}
use agent_wake.Tests.Fixtures.{config, event, store_of, two_rows, router_of}

abbrev desk : Destination
desk = record {
  name = "desk";
  adapter = some "claude";
  session = none;
  principal = none;
  max_connections = none;
}

abbrev router : Router
router = router_of config (some two_rows)

subscriber_for-Chosen_example :
    Chosen desk router.subscribers (reverse ("s1" ∷ [])) (subscriber_for desk router)
subscriber_for-Chosen_example = subscriber_for-Chosen desk router

full_queue_reports_queued_example :
    ((undeliverable 3 (event "e3" "ci") (some "desk") router).1 ≡ "queued_next_session")
    × ((undeliverable 3 (event "e3" "ci") (some "desk") router).0.store ≡ some two_rows)
unfolding contains as_obj get as_str
full_queue_reports_queued_example =
    full_queue_reports_queued 3 (event "e3" "ci") (some "desk") router two_rows
      (unfold delivery_mode in refl) refl (omega arith)

-- every send fails, and no other task runs
abbrev dead : String → Await
dead n = failed (λ rt. rt)

abbrev new_ack : String → String
new_ack n = "a9"

abbrev both : List Destination
both =
    record {
      name = "desk";
      adapter = some "claude";
      session = none;
      principal = some "ann";
      max_connections = none;
    }
    ∷ record {
      name = "laptop";
      adapter = none;
      session = none;
      principal = none;
      max_connections = none;
    }
    ∷ []

durable_never_dropped_example :
    ((deliver dead new_ack 3 (event "e3" "ci") router).1 ≡ "queued")
    ⊎ ((deliver dead new_ack 3 (event "e3" "ci") router).1 ≡ "queued_next_session")
unfolding contains as_obj get as_str resolve routed_destinations route_table as_arr text_at py_str
    elements find destination_table any
durable_never_dropped_example =
    durable_never_dropped dead new_ack 3 (event "e3" "ci") router both (λ n rt d. d)
      (record { mode = unfold delivery_mode in refl; stored = λ e. absurd (cc) })
      (unfold resolve_addressing in refl)

fan_out_one_row_example :
    queued_rows
      (undeliverable_all 3
        (event "e3" "ci")
        ("desk" ∷ "laptop" ∷ [])
        (router_of config (some (store_of [])))).0.store
    ≤ queued_rows (some (store_of [])) + 1
fan_out_one_row_example =
    fan_out_one_row 3 (event "e3" "ci") ("desk" ∷ "laptop" ∷ [])
      (router_of config (some (store_of [])))

-- `cron` has no route
unrouted_event_is_claimed_example :
    (st' : WakeStore) × ((deliver dead new_ack 3
        (event "e3" "cron")
        (router_of config (some (store_of [])))).0.store
      ≡ some st')
    × (claim_rows 7 (text_at "source" (event "e3" "cron")) 5 st'
        ≡ claim_rows 7 (text_at "source" (event "e3" "cron")) 5 (store_of [])
          ++ pending_row 3
              (event "e3" "cron")
              (some (text_at "source" (event "e3" "cron")))
              (store_of [])
            ∷ [])
unfolding resolve as_obj get routed_destinations route_table as_arr text_at py_str contains as_str
    enqueue_pending any keep
unrouted_event_is_claimed_example =
    unrouted_event_is_claimed dead new_ack 3 7 5 (event "e3" "cron")
      (router_of config (some (store_of []))) (store_of []) (unfold resolve_addressing in refl)
      (unfold delivery_mode in refl) refl refl (omega arith) (omega arith)

-- the event ids of the two rows
names : ℕ → String
names i = elim (eqb i 1) [ true ↦ "e1" | false ↦ "e2" ]

abbrev around : Surroundings
around = record {
  now = λ i. 4;
  dead_letter_id = λ i. "d9";
  ack_id = λ i. "a9";
  await_send = λ i. failed (λ rt. rt);
}

drain_loses_nothing_example : Kept names "e2" (drain_pending around 4 "s1" router).0.store
unfolding names others_of is_kept is_queued any
drain_loses_nothing_example =
    drain_loses_nothing names "e2" around (λ i rt k. k) 4 "s1" router ((refl, (refl, tt)), refl)
