-- ===== src/Store/Prune/Bounds.antt =====
-- How many rows a prune leaves.
use agent_wake.Prelude.{
  ℕ, suc, ◌+◌, ◌-◌, ◌≤◌, ◌≡◌, refl, String, List, [], ◌∷◌, arith, length, length-append,
  length-evict-le,
}
use agent_wake.Store.State.{WakeStore, PendingEvent, DeadLetter, SeenEvent}
use agent_wake.Store.DeadLetters.{insert_dead_letter}
use agent_wake.Store.Prune.{
  victims, cap_seen, fresh_seen, cap_dead_letters, fresh_dead_letters, evict_seen, seen_before,
  sweep_dedupe, evict_dead_letters, evicts_before, sweep_dead_letters, promote, swept, prune,
  expired_pending,
}

evict_seen-le : (n : ℕ) (rows : List SeenEvent) → length (evict_seen n rows) ≤ length rows - n
unfolding evict_seen
evict_seen-le n rows = length-evict-le seen_before (λ r. r.event_id) n rows

evict_dead_letters-le :
    (n : ℕ) (rows : List DeadLetter) → length (evict_dead_letters n rows) ≤ length rows - n
unfolding evict_dead_letters victims
evict_dead_letters-le n rows = length-evict-le evicts_before (λ d. d.id) n rows

cap_seen-le : (cap : ℕ) (rows : List SeenEvent) → length (cap_seen cap rows) ≤ cap
unfolding cap_seen
cap_seen-le cap rows = ground (arith, evict_seen-le (length rows - cap) rows)

cap_dead_letters-le : (cap : ℕ) (rows : List DeadLetter) → length (cap_dead_letters cap rows) ≤ cap
unfolding cap_dead_letters
cap_dead_letters-le cap rows = ground (arith, evict_dead_letters-le (length rows - cap) rows)

pub length-sweep_dedupe-le :
    (now : ℕ) (st : WakeStore) → length (sweep_dedupe now st) ≤ st.limits.dedupe_max_rows
unfolding sweep_dedupe
length-sweep_dedupe-le now st = cap_seen-le st.limits.dedupe_max_rows (fresh_seen now st)

pub length-sweep_dead_letters-le :
    (now : ℕ) (st : WakeStore) → length (sweep_dead_letters now st) ≤ st.limits.dead_letter_max_rows
unfolding sweep_dead_letters
length-sweep_dead_letters-le now st =
    cap_dead_letters-le st.limits.dead_letter_max_rows (fresh_dead_letters now st)

module _ (ulid : ℕ → String) (at : ℕ) where
  pub dedupe-promote :
      (i : ℕ) (expired : List PendingEvent) (st : WakeStore)
      → (promote ulid i at expired st).dedupe ≡ st.dedupe
  unfolding promote
  dedupe-promote i [] st = refl
  dedupe-promote i (pe ∷ expired) st = dedupe-promote (suc i) expired _

  pub pending-promote :
      (i : ℕ) (expired : List PendingEvent) (st : WakeStore)
      → (promote ulid i at expired st).pending ≡ st.pending
  unfolding promote
  pending-promote i [] st = refl
  pending-promote i (pe ∷ expired) st = pending-promote (suc i) expired _

  pub limits-promote :
      (i : ℕ) (expired : List PendingEvent) (st : WakeStore)
      → (promote ulid i at expired st).limits ≡ st.limits
  unfolding promote
  limits-promote i [] st = refl
  limits-promote i (pe ∷ expired) st = limits-promote (suc i) expired _

  pub next_row_id-promote :
      (i : ℕ) (expired : List PendingEvent) (st : WakeStore)
      → (promote ulid i at expired st).next_row_id ≡ st.next_row_id
  unfolding promote
  next_row_id-promote i [] st = refl
  next_row_id-promote i (pe ∷ expired) st = next_row_id-promote (suc i) expired _

  pub length-promote :
      (i : ℕ) (expired : List PendingEvent) (st : WakeStore)
      → length (promote ulid i at expired st).dead_letters ≡ length st.dead_letters + length expired
  unfolding promote
  length-promote i [] st = omega arith
  length-promote i (pe ∷ expired) st = omega (
    arith,
    length-promote (suc i) expired (insert_dead_letter _ _ _ _ _ _ _ _ st),
    length-append st.dead_letters,
  )

-- A prune leaves at most `dedupe_max_rows` rows in the dedupe table, and in the dead-letter table at
-- most `dead_letter_max_rows` rows and one for each pending event that expired.
pub prune_bounds :
    (ulid : ℕ → String) (now at : ℕ) (st : WakeStore)
    → (length (prune ulid now at st).dedupe ≤ st.limits.dedupe_max_rows)
      × (length (prune ulid now at st).dead_letters
          ≤ st.limits.dead_letter_max_rows + length (expired_pending now st))
unfolding prune swept
prune_bounds ulid now at st = (
  rw dedupe-promote (length-sweep_dedupe-le now st),
  rw length-promote (omega (arith, length-sweep_dead_letters-le now st)),
)
