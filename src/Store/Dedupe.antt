-- ===== src/Store/Dedupe.antt =====
-- `check_and_record_event` and `dedupe_count` of store.py.
pub mod Replay
use agent_wake.Prelude.{
  ℕ, ◌+◌, String, Bool, true, false, not, List, [], ◌∷◌, ◌++◌, ◌==◌, if◌then◌else◌, leb, length,
  any,
}
use agent_wake.Store.State.{WakeStore, SeenEvent, prune_interval}
use agent_wake.Store.Prune.{prune}

unfoldable pub dedupe_count : WakeStore → ℕ
dedupe_count st = length st.dedupe

-- the PRIMARY KEY on event_id
unfoldable pub is_seen : String → List SeenEvent → Bool
is_seen event_id = any (λ r. r.event_id == event_id)

-- `INSERT OR IGNORE INTO dedupe`
unfoldable pub insert_or_ignore : String → String → ℕ → List SeenEvent → List SeenEvent
unfolding is_seen
insert_or_ignore event_id source now rows =
    if is_seen event_id rows
    then rows
    else rows ++ (record { event_id = event_id; source = source; seen_at = now } ∷ [])

unfoldable pub recorded : ℕ → String → String → WakeStore → WakeStore
unfolding insert_or_ignore
recorded now event_id source st = record st {
  dedupe = insert_or_ignore event_id source now st.dedupe;
  inserts_since_prune = st.inserts_since_prune + 1;
}

-- The clock is read at the insert (`now`), by a prune that is due (`sweep`) and by its dead letters
-- (`at`). The result is the new state, and whether the event was seen before.
unfoldable pub check_and_record_event :
    (ℕ → String) → ℕ → ℕ → ℕ → String → String → WakeStore → WakeStore × Bool
unfolding recorded
check_and_record_event ulid now sweep at event_id source st =
    let st' = recorded now event_id source st in
    (
      if leb prune_interval st'.inserts_since_prune then prune ulid sweep at st' else st',
      is_seen event_id st.dedupe,
    )
