-- ===== src/Tests/Store.antt =====
-- The durable store at a database of two queued events.
use agent_wake.Prelude.{
  ℕ, ◌+◌, ◌-◌, ◌≤◌, String, ◌≡◌, refl, Bool, true, false, not, ◌&&◌, none, some, List, [], ◌∷◌,
  ◌++◌, map, arith, length, keep, any, All, eqb, ltb,
}
use agent_wake.Json.{Fields}
use agent_wake.Store.State.{WakeStore, DeadLetter, empty_store}
use agent_wake.Store.Queue.{claim_pending, is_addressed}
use agent_wake.Store.Queue.Claim.{claim_at_least_once, fixed, attempts_of, times}
use agent_wake.Store.Prune.{
  prune, expired_pending, sweep_dead_letters, is_expired, fresh_dead_letters, victims,
}
use agent_wake.Store.Prune.Bounds.{prune_bounds}
use agent_wake.Store.Prune.Order.{is_untried, failed_redrive_first}
use agent_wake.Store.Prune.Conserve.{prune_conserves, letter_trace, event_trace}
use agent_wake.Store.Dedupe.{is_seen}
use agent_wake.Store.Dedupe.Replay.{Check, run_check, run_checks, replay_after_first}
use agent_wake.Store.Invariant.{IsValid, Op, run, run-IsValid}
use agent_wake.Store.Fifo.{Steps, view}
use agent_wake.Store.Fifo.Refines.{handed_out_by, run_refines}
use agent_wake.Tests.Fixtures.{event, limits, row, letter, two_rows, store_of, ulid}

claim_at_least_once_example :
    let c = claim_pending 5 "desk" 1 two_rows in
    (length c.1 ≤ 1)
    × All (λ r. (is_addressed "desk" r && ltb 5 r.expires_at) ≡ true) c.1
    × (map fixed c.0.pending ≡ map fixed two_rows.pending)
    × ((i : ℕ)
        → any (λ r. eqb r.row_id i) two_rows.pending ≡ true
        → attempts_of i c.0.pending ≡ attempts_of i two_rows.pending + times i c.1)
claim_at_least_once_example = claim_at_least_once 5 "desk" 1 two_rows

abbrev one_row : WakeStore
one_row = store_of (row 1 "e1" 0 ∷ [])

prune_bounds_example :
    (length (prune ulid 12 12 two_rows).dedupe ≤ 3)
    × (length (prune ulid 12 12 two_rows).dead_letters ≤ 1 + length (expired_pending 12 two_rows))
prune_bounds_example = prune_bounds ulid 12 12 two_rows

-- two letters above a maximum of one
abbrev two_letters : WakeStore
two_letters = record two_rows {
  dead_letters =
      letter "d1" "next_session" none 1 ∷ letter "d2" "human_delivery" (some "failed") 2 ∷ [];
}

failed_redrive_first_example :
    let live = fresh_dead_letters 12 two_letters in
    let overflow = length live - two_letters.limits.dead_letter_max_rows in
    All
      (λ v.
        All (λ s. (is_untried v && not (is_untried s)) ≡ false) (sweep_dead_letters 12 two_letters))
      (victims overflow live)
failed_redrive_first_example = failed_redrive_first 12 two_letters

prune_conserves_example :
    (new : List DeadLetter) × ((prune ulid 12 12 two_rows).dead_letters
      ≡ sweep_dead_letters 12 two_rows ++ new)
    × (length new ≡ length (keep (is_expired 12) two_rows.pending))
    × ((q : String × String × String × Fields × ℕ → Bool)
        → length (keep q (map letter_trace new))
          ≡ length (keep q (map event_trace (keep (is_expired 12) two_rows.pending))))
    × ((prune ulid 12 12 two_rows).pending ≡ keep (λ r. not (is_expired 12 r)) two_rows.pending)
    × (length (keep (is_expired 12) two_rows.pending) + length (prune ulid 12 12 two_rows).pending
        ≡ length two_rows.pending)
prune_conserves_example = prune_conserves ulid 12 12 two_rows

abbrev first_check : Check
first_check = record { now = 5; sweep = 5; at = 5; event_id = "e7"; source = "ci" }

abbrev other_check : Check
other_check = record { now = 90; sweep = 105; at = 105; event_id = "e8"; source = "cron" }

replay_after_first_example :
    ((run_check ulid first_check two_rows).1 ≡ false)
    × ((run_check ulid first_check
          (run_checks ulid (other_check ∷ []) (run_check ulid first_check two_rows).0)).1
        ≡ true)
replay_after_first_example =
    replay_after_first ulid first_check first_check (other_check ∷ []) two_rows
      (unfold is_seen any in refl) (omega arith) (omega arith) (omega arith, tt) refl

abbrev some_ops : List Op
some_ops =
    Op.enqueue 1 (event "e1" "ci") none
    ∷ Op.enqueue 2 (event "e1" "ci") none
    ∷ Op.claim 3 "ci" 5
    ∷ Op.enqueue 4 (event "e2" "ci") none
    ∷ Op.delete 1
    ∷ Op.sweep 20 20
    ∷ []

run-IsValid_example : IsValid (run ulid some_ops (empty_store limits))
run-IsValid_example = run-IsValid ulid limits some_ops

run_refines_example :
    Steps 2
      (record { queue = λ d. []; size = 0 })
      some_ops
      (handed_out_by ulid some_ops (empty_store limits))
      (view (run ulid some_ops (empty_store limits)))
run_refines_example = run_refines ulid limits some_ops
