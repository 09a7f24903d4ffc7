-- ===== src/Store/Fifo/Refines.antt =====
-- The store keeps the contract of the queue, call by call and over every run.
use mathlib.Core.List.{append-nil}
use mathlib.Core.Path.{subst}
use agent_wake.Prelude.{
  ℕ, String, ◌≡◌, ◌≢◌, refl, sym, ap, ◌∙◌, inl, inr, not, Option, List, [], ◌∷◌, ◌++◌, map, arith,
  ◌==◌, if◌then◌else◌, ltb, leb, eqb, length, take, keep, keep-append, length-append,
  length-keep-le, Bool-cases, contains,
}
use agent_wake.Json.{Fields, text_at}
use agent_wake.Store.State.{WakeStore, Limits, empty_store, prune_interval}
use agent_wake.Store.Queue.{
  is_addressed, or_source, enqueue_pending, is_queued, pending_row, pending_count, claim_pending,
  claim_rows, claimable, delete_pending,
}
use agent_wake.Store.Prune.{prune, swept, expired_pending, is_expired}
use agent_wake.Store.Prune.Bounds.{pending-promote, limits-promote}
use agent_wake.Store.Invariant.{
  Op, check, enqueue, claim, delete, letter, mark, purge, sweep, apply, run,
}
use agent_wake.Store.Dedupe.{check_and_record_event, recorded}
use agent_wake.Store.Dedupe.Replay.{Check, run_check}
use agent_wake.Store.DeadLetters.{dead_letter, dead_letter_kinds, mark_redriven, purge_dead_letters}
use agent_wake.Store.Fifo.{
  Message, unexpired, Step, taken, refused, received, acknowledged, expired, aside, Steps, done,
  and_then, IsAside, message_of, view, handed_out,
}
use agent_wake.Store.Fifo.View.{
  view-bump_all, length-bump_all, forget_attempt, view-keep, alive, absent, present,
}
use agent_wake.Store.Fifo.Commute.{keep-and, keep-map, take-map, map-append}

module _ (st : WakeStore) where
  step-claim :
      (now : ℕ) (d : String) (limit : ℕ)
      → Step st.limits.pending_max_rows
          (view st)
          (claim now d limit)
          (handed_out st (claim now d limit))
          (view (claim_pending now d limit st).0)
  unfolding handed_out claim_pending claim_rows claimable
  step-claim now d limit =
      let rows = claim_rows now d limit st in
      received now d limit _ _
        (forget_attempt rows
          ∙ sym (take-map limit message_of _)
          ∙ ap (λ l. take limit (map message_of l))
              (keep-and (is_addressed d) (λ r. ltb now r.expires_at) st.pending)
          ∙ ap (take limit)
              (sym (keep-map (unexpired now) message_of (keep (is_addressed d) st.pending))))
        (λ e. view-bump_all e rows st.pending) (length-bump_all rows st.pending)

  step-delete :
      (i : ℕ) → Step st.limits.pending_max_rows (view st) (delete i) [] (view (delete_pending i st))
  unfolding delete_pending
  step-delete i =
      acknowledged i _
        (λ e.
          view-keep (λ r. not (eqb r.row_id i)) (λ m. not (eqb m.row_id i)) (λ r. refl) e
            st.pending)
        (length-keep-le _ st.pending)

  step-sweep :
      (ulid : ℕ → String) (now at : ℕ)
      → Step st.limits.pending_max_rows (view st) (sweep now at) [] (view (prune ulid now at st))
  unfolding prune swept
  step-sweep ulid now at =
      let same = pending-promote ulid at 0 (expired_pending now st) (swept now st) in
      expired now at _
        (λ e.
          rw same
            (view-keep (λ r. not (is_expired now r)) (unexpired now) (alive now) e st.pending))
        (rw same (length-keep-le _ st.pending))

module _ (st : WakeStore) (now : ℕ) (event : Fields) (d : Option String) where
  row-view :
      (e : String)
      → map message_of (keep (is_addressed e) (st.pending ++ pending_row now event d st ∷ [])) ≡ (
          if or_source d (text_at "source" event) == e
          then map message_of (keep (is_addressed e) st.pending)
            ++ message_of (pending_row now event d st) ∷ []
          else map message_of (keep (is_addressed e) st.pending))
  unfolding pending_row is_addressed keep
  row-view e = rw keep-append (elim (Bool-cases (or_source d (text_at "source" event) == e)) [
    | inl y ↦ rw y (map-append message_of (keep (is_addressed e) st.pending) _)
    | inr n ↦ rw n (ap (map message_of) (append-nil (keep (is_addressed e) st.pending)))
  ])

  step-enqueue :
      Step st.limits.pending_max_rows
        (view st)
        (enqueue now event d)
        []
        (view (enqueue_pending now event d st).0)
  unfolding enqueue_pending pending_count
  step-enqueue = elim (Bool-cases (text_at "event_id" event == "")) [
    | inl blank ↦ rw blank (refused now event d (inl blank))
    | inr named ↦ elim (Bool-cases (leb st.limits.pending_max_rows (length st.pending))) [
      | inl full ↦ rw (named, full) (refused now event d (inr (inr (ground arith))))
      | inr free ↦ elim (Bool-cases (is_queued (text_at "event_id" event) st.pending)) [
        | inl old ↦
            rw (named, free, old)
              (refused now event d (inr (inl (present (text_at "event_id" event) st.pending old))))
        | inr fresh ↦
            rw (named, free, fresh)
              (taken now event d (message_of (pending_row now event d st)) _
                (unfold pending_row in refl) (unfold pending_row in refl) named
                (λ e. absent (text_at "event_id" event) e st.pending fresh) (ground arith) row-view
                (length-append st.pending _))
      ]
    ]
  ]

-- a state that differs from another only in what the abstraction does not see
step-aside :
    (room : ℕ) (st st' : WakeStore) (op : Op)
    → IsAside op
    → st'.pending ≡ st.pending
    → Step room (view st) op [] (view st')
step-aside room st st' op a same = aside op (view st') a (λ e. rw same refl) (rw same refl)

step-check :
    (ulid : ℕ → String) (st : WakeStore) (c : Check)
    → Step st.limits.pending_max_rows (view st) (check c) [] (view (run_check ulid c st).0)
unfolding check_and_record_event recorded prune swept
step-check ulid st c =
    let r = recorded c.now c.event_id c.source st in
    elim (Bool-cases (leb prune_interval r.inserts_since_prune)) [
      | inr calm ↦ rw calm (step-aside st.limits.pending_max_rows st r (check c) tt refl)
      | inl due ↦
          let same = pending-promote ulid c.at 0 (expired_pending c.sweep r) (swept c.sweep r) in
          rw due (
            Step.swept c _
              (λ e. rw same (
                view-keep (λ x. not (is_expired c.sweep x)) (unexpired c.sweep) (alive c.sweep) e
                  st.pending))
              (rw same (length-keep-le _ st.pending)))
    ]

-- what the calls on the other tables leave alone
module _ (ulid : ℕ → String) (st : WakeStore) where
  aside-pending :
      (op : Op)
      → IsAside op
      → ((c : Check) → op ≢ check c)
      → (apply ulid st op).pending ≡ st.pending
  unfolding apply dead_letter mark_redriven purge_dead_letters
  aside-pending (check c) a other = absurd (other c refl)
  aside-pending (letter i now kind source ref payload error n) a other =
      elim (Bool-cases (contains dead_letter_kinds kind)) [
        | inl known ↦ rw (known, apply) refl
        | inr unknown ↦ rw (unknown, apply) refl
      ]
  aside-pending (mark now i status error) a other = refl
  aside-pending (purge now age only) a other = refl
  aside-pending op a other = absurd a

  -- the bounds never change
  limits-check : (c : Check) → (run_check ulid c st).0.limits ≡ st.limits
  unfolding check_and_record_event recorded prune swept
  limits-check c =
      let r = recorded c.now c.event_id c.source st in
      elim (Bool-cases (leb prune_interval r.inserts_since_prune)) [
        | inr calm ↦ rw calm refl
        | inl due ↦
            rw due (limits-promote ulid c.at 0 (expired_pending c.sweep r) (swept c.sweep r))
      ]

  limits-apply : (op : Op) → (apply ulid st op).limits ≡ st.limits
  unfolding apply dead_letter mark_redriven purge_dead_letters enqueue_pending claim_pending
      delete_pending prune swept
  limits-apply (check c) = limits-check c
  limits-apply (enqueue now event d) = ground arith
  limits-apply (claim now d limit) = refl
  limits-apply (delete i) = refl
  limits-apply (sweep now at) = limits-promote ulid at 0 (expired_pending now st) (swept now st)
  limits-apply (letter i now kind source ref payload error n) =
      elim (Bool-cases (contains dead_letter_kinds kind)) [
        | inl known ↦ rw (known, apply) refl
        | inr unknown ↦ rw (unknown, apply) refl
      ]
  limits-apply (mark now i status error) = refl
  limits-apply (purge now age only) = refl

  step-other :
      (op : Op)
      → IsAside op
      → ((c : Check) → op ≢ check c)
      → Step st.limits.pending_max_rows (view st) op [] (view (apply ulid st op))
  step-other op a other =
      step-aside st.limits.pending_max_rows st (apply ulid st op) op a (aside-pending op a other)

  -- Each call of the store is the call of the contract on what the store holds, with the same result.
  step-apply :
      (op : Op)
      → Step st.limits.pending_max_rows (view st) op (handed_out st op) (view (apply ulid st op))
  unfolding apply handed_out
  step-apply (check c) = step-check ulid st c
  step-apply (enqueue now event d) = step-enqueue st now event d
  step-apply (claim now d limit) = step-claim st now d limit
  step-apply (delete i) = step-delete st i
  step-apply (sweep now at) = step-sweep st ulid now at
  step-apply (letter i now kind source ref payload error n) =
      step-other (letter i now kind source ref payload error n) tt (λ c. cc)
  step-apply (mark now i status error) = step-other (mark now i status error) tt (λ c. cc)
  step-apply (purge now age only) = step-other (purge now age only) tt (λ c. cc)

-- what a run of calls hands out, call by call
unfoldable pub handed_out_by : (ℕ → String) → List Op → WakeStore → List (List Message)
unfolding handed_out
handed_out_by ulid [] st = []
handed_out_by ulid (op ∷ ops) st = handed_out st op ∷ handed_out_by ulid ops (apply ulid st op)

run-Steps :
    (ulid : ℕ → String) (room : ℕ) (ops : List Op) (st : WakeStore)
    → st.limits.pending_max_rows ≡ room
    → Steps room (view st) ops (handed_out_by ulid ops st) (view (run ulid ops st))
unfolding run handed_out_by
run-Steps ulid room [] st h = done
run-Steps ulid room (op ∷ ops) st h =
    and_then
      (subst (λ k. Step k (view st) op (handed_out st op) (view (apply ulid st op))) h
        (step-apply ulid st op))
      (run-Steps ulid room ops (apply ulid st op)
        (ap (λ l. l.pending_max_rows) (limits-apply ulid st op) ∙ h))

-- The store refines the contract of its queue: any calls on a new database are, one by one, calls on
-- queues that are empty at first, one for each destination, and hand out the same messages in the same
-- order. So a claim reads the oldest messages of its destination that have not expired and removes
-- none, an event is refused only if it has no id, is queued already or finds no room, and what is
-- queued leaves only by its acknowledgement or at its expiry.
pub run_refines :
    (ulid : ℕ → String) (l : Limits) (ops : List Op)
    → Steps l.pending_max_rows
        (record { queue = λ d. []; size = 0 })
        ops
        (handed_out_by ulid ops (empty_store l))
        (view (run ulid ops (empty_store l)))
unfolding keep
run_refines ulid l ops = run-Steps ulid l.pending_max_rows ops (empty_store l) refl
