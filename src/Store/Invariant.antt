-- ===== src/Store/Invariant.antt =====
-- What every operation of the store keeps, from an empty database on.
use agent_wake.Prelude.{
  ℕ, ◌+◌, ◌≤◌, ◌<◌, String, ◌≡◌, refl, Bool, false, not, Option, some, none, List, [], ◌∷◌, ◌==◌,
  arith, if◌then◌else◌, eqb, leb, any, keep, length, All, Pairs, Pairs-keep, Pairs-last,
  Pairs-map_self, All-keep, All-append, All-map_self, All-mono, length-keep-le, length-append,
  length-map, Bool-cases, inl, inr, contains,
}
use agent_wake.Json.{Fields, text_at}
use agent_wake.Store.State.{WakeStore, PendingEvent, Limits, empty_store, prune_interval}
use agent_wake.Store.Queue.{
  enqueue_pending, is_queued, pending_row, claim_pending, claim_rows, bump, bump_all,
  delete_pending,
}
use agent_wake.Store.DeadLetters.{dead_letter, dead_letter_kinds, mark_redriven, purge_dead_letters}
use agent_wake.Store.Prune.{prune, swept, expired_pending, is_expired}
use agent_wake.Store.Prune.Bounds.{pending-promote, limits-promote, next_row_id-promote}
use agent_wake.Store.Dedupe.{check_and_record_event, recorded}
use agent_wake.Store.Dedupe.Replay.{Check, run_check}

-- an earlier and a later row: other row ids, in order, and other event ids
abbrev pub Apart : PendingEvent → PendingEvent → Type 0
Apart a b = (a.row_id < b.row_id) × ((a.event_id == b.event_id) ≡ false)

-- The pending table is bounded, its row ids are those of AUTOINCREMENT in order, and no event id
-- stands in it twice.
pub record IsValid (st : WakeStore) : Type 0 where
  pub bounded : length st.pending ≤ st.limits.pending_max_rows
  pub below : All (λ r. r.row_id < st.next_row_id) st.pending
  pub apart : Pairs Apart st.pending

-- A call of the store, with the readings of the clock that it takes.
pub data Op : Type 0 where
  check : Check → Op
  enqueue : ℕ → Fields → Option String → Op
  claim : ℕ → String → ℕ → Op
  delete : ℕ → Op
  letter : String → ℕ → String → String → String → Fields → Option String → ℕ → Op
  mark : ℕ → String → String → Option String → Op
  purge : ℕ → Option ℕ → Bool → Op
  sweep : ℕ → ℕ → Op

unfoldable pub apply : (ℕ → String) → WakeStore → Op → WakeStore
apply ulid st (check c) = (run_check ulid c st).0
apply ulid st (enqueue now event d) = (enqueue_pending now event d st).0
apply ulid st (claim now d limit) = (claim_pending now d limit st).0
apply ulid st (delete i) = delete_pending i st
apply ulid st (letter i now kind source ref payload error n) =
    elim (dead_letter i now kind source ref payload error n st) [ none ↦ st | some (st', _) ↦ st' ]
apply ulid st (mark now i status error) = mark_redriven now i status error st
apply ulid st (purge now age only) = (purge_dead_letters now age only st).0
apply ulid st (sweep now at) = prune ulid now at st

-- The pending table is all that the invariant reads.
same-IsValid :
    (s s' : WakeStore)
    → s'.pending ≡ s.pending
    → s'.limits ≡ s.limits
    → s'.next_row_id ≡ s.next_row_id
    → IsValid s
    → IsValid s'
same-IsValid s s' p l n v = record {
  bounded = rw (p, l) v.bounded;
  below = rw (p, n) v.below;
  apart = rw p v.apart;
}

keep-IsValid :
    (p : PendingEvent → Bool) (s s' : WakeStore)
    → s'.pending ≡ keep p s.pending
    → s'.limits ≡ s.limits
    → s'.next_row_id ≡ s.next_row_id
    → IsValid s
    → IsValid s'
keep-IsValid p s s' e l n v = record {
  bounded = rw (e, l) (omega (arith, length-keep-le p s.pending, v.bounded));
  below = rw (e, n) (All-keep (λ r. r.row_id < s.next_row_id) p s.pending v.below);
  apart = rw e (Pairs-keep Apart p s.pending v.apart);
}

not-queued :
    (e : String) (rows : List PendingEvent)
    → is_queued e rows ≡ false
    → All (λ r. (r.event_id == e) ≡ false) rows
unfolding is_queued any
not-queued e [] h = tt
not-queued e (r ∷ rows) h = (ground arith, not-queued e rows (ground arith))

both {ℓ} :
    {A : Type ℓ} (P Q : A → Type 0) (xs : List A) → All P xs → All Q xs → All (λ x. P x × Q x) xs
both P Q [] h k = tt
both P Q (x ∷ xs) h k = ((h.0, k.0), both P Q xs h.1 k.1)

enqueue-IsValid :
    (now : ℕ) (event : Fields) (d : Option String) (st : WakeStore)
    → IsValid st
    → IsValid (enqueue_pending now event d st).0
unfolding enqueue_pending
enqueue-IsValid now event d st v = elim (Bool-cases (text_at "event_id" event == "")) [
  | inl e ↦ rw e v
  | inr e ↦ elim (Bool-cases (leb st.limits.pending_max_rows (length st.pending))) [
    | inl full ↦ rw (e, full) v
    | inr room ↦ elim (Bool-cases (is_queued (text_at "event_id" event) st.pending)) [
      | inl old ↦ rw (e, room, old) v
      | inr new ↦
          rw (e, room, new)
            (record {
              bounded = rw length-append (ground arith);
              below =
                  All-append (λ r. r.row_id < st.next_row_id + 1) st.pending _
                    (All-mono (λ r. r.row_id < st.next_row_id) (λ r. r.row_id < st.next_row_id + 1)
                      (λ r h. omega arith) st.pending v.below)
                    (omega arith, tt);
              apart =
                  Pairs-last Apart (pending_row now event d st) st.pending
                    (both (λ r. r.row_id < st.next_row_id)
                      (λ r. (r.event_id == text_at "event_id" event) ≡ false) st.pending v.below
                      (not-queued (text_at "event_id" event) st.pending new))
                    v.apart;
            })
    ]
  ]
]

bump-IsValid :
    (i : ℕ) (st : WakeStore) → IsValid st → IsValid (record st { pending = bump i st.pending })
unfolding bump
bump-IsValid i st v =
    let f =
      λ (r : PendingEvent). if eqb r.row_id i then record r { attempts = r.attempts + 1 } else r in
    record {
      bounded = rw length-map v.bounded;
      below =
          All-map_self (λ r. r.row_id < st.next_row_id) f (λ r h. ground arith) st.pending v.below;
      apart =
          Pairs-map_self Apart f (λ x y h. ground arith) (λ x y h. ground arith) st.pending v.apart;
    }

bump_all-IsValid :
    (rows : List PendingEvent) (st : WakeStore)
    → IsValid st
    → IsValid (record st { pending = bump_all rows st.pending })
unfolding bump_all
bump_all-IsValid [] st v = same-IsValid st _ refl refl refl v
bump_all-IsValid (r ∷ rows) st v =
    bump_all-IsValid rows (record st { pending = bump r.row_id st.pending })
      (bump-IsValid r.row_id st v)

prune-IsValid :
    (ulid : ℕ → String) (now at : ℕ) (st : WakeStore) → IsValid st → IsValid (prune ulid now at st)
unfolding prune swept
prune-IsValid ulid now at st v =
    keep-IsValid (λ r. not (is_expired now r)) st _
      (pending-promote ulid at 0 (expired_pending now st) _)
      (limits-promote ulid at 0 (expired_pending now st) _)
      (next_row_id-promote ulid at 0 (expired_pending now st) _) v

check-IsValid :
    (ulid : ℕ → String) (c : Check) (st : WakeStore) → IsValid st → IsValid (run_check ulid c st).0
unfolding check_and_record_event
check-IsValid ulid c st v =
    let r = recorded c.now c.event_id c.source st in
    let k : IsValid r = unfold recorded in same-IsValid st _ refl refl refl v in
    elim (Bool-cases (leb prune_interval r.inserts_since_prune)) [
      | inl due ↦ rw due (prune-IsValid ulid c.sweep c.at r k)
      | inr calm ↦ rw calm k
    ]

pub apply-IsValid :
    (ulid : ℕ → String) (st : WakeStore) (op : Op) → IsValid st → IsValid (apply ulid st op)
unfolding apply claim_pending delete_pending dead_letter mark_redriven purge_dead_letters
apply-IsValid ulid st (check c) v = check-IsValid ulid c st v
apply-IsValid ulid st (enqueue now event d) v = enqueue-IsValid now event d st v
apply-IsValid ulid st (claim now d limit) v = bump_all-IsValid (claim_rows now d limit st) st v
apply-IsValid ulid st (delete i) v = keep-IsValid (λ r. not (eqb r.row_id i)) st _ refl refl refl v
apply-IsValid ulid st (letter i now kind source ref payload error n) v =
    elim (Bool-cases (contains dead_letter_kinds kind)) [
      | inl known ↦ rw (known, apply) (same-IsValid st _ refl refl refl v)
      | inr unknown ↦ rw (unknown, apply) v
    ]
apply-IsValid ulid st (mark now i status error) v = same-IsValid st _ refl refl refl v
apply-IsValid ulid st (purge now age only) v = same-IsValid st _ refl refl refl v
apply-IsValid ulid st (sweep now at) v = prune-IsValid ulid now at st v

unfoldable pub run : (ℕ → String) → List Op → WakeStore → WakeStore
run ulid [] st = st
run ulid (op ∷ ops) st = run ulid ops (apply ulid st op)

run_from :
    (ulid : ℕ → String) (ops : List Op) (st : WakeStore) → IsValid st → IsValid (run ulid ops st)
unfolding run
run_from ulid [] st v = v
run_from ulid (op ∷ ops) st v = run_from ulid ops (apply ulid st op) (apply-IsValid ulid st op v)

-- After any operations on a new database, the queue has at most `pending_max_rows` rows, their row
-- ids grow in the order of insertion and stay below the next one, and no event id is queued twice.
pub run-IsValid :
    (ulid : ℕ → String) (l : Limits) (ops : List Op) → IsValid (run ulid ops (empty_store l))
run-IsValid ulid l ops =
    run_from ulid ops (empty_store l) (record { bounded = omega arith; below = tt; apart = tt })
