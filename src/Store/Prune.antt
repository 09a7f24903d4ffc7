-- ===== src/Store/Prune.antt =====
-- `prune` of store.py: the sweeps of the three tables, in the order of the source.
pub mod Bounds
pub mod Order
pub mod Conserve
use Prim.Native.String.{◌++◌ as text_append}
use agent_wake.Prelude.{
  ℕ, zero, suc, ◌+◌, ◌-◌, ◌≡◌, refl, String, Bool, true, false, not, ◌&&◌, ◌||◌, Option, none, some,
  List, [], ◌∷◌, ◌++◌, map, ◌==◌, if◌then◌else◌, leb, ltb, eqb, length, take, keep, contains,
  sort_by,
}
use agent_wake.Json.{repr, str, decimal}
use agent_wake.Store.State.{WakeStore, SeenEvent, PendingEvent, DeadLetter}
use agent_wake.Store.DeadLetters.{insert_dead_letter, unredriven}

-- `seen_at < now - dedupe_ttl_seconds`, which no row meets if the right side is below 0
unfoldable pub is_stale : ℕ → ℕ → SeenEvent → Bool
is_stale now ttl r = ltb (r.seen_at + ttl) now

unfoldable pub seen_before : SeenEvent → SeenEvent → Bool
seen_before a b = leb a.seen_at b.seen_at

-- `DELETE … WHERE event_id IN (SELECT event_id … ORDER BY seen_at ASC LIMIT n)`
unfoldable pub evict_seen : ℕ → List SeenEvent → List SeenEvent
unfolding seen_before
evict_seen n rows =
    let victims = map (λ r. r.event_id) (take n (sort_by seen_before rows)) in
    keep (λ r. not (contains victims r.event_id)) rows

-- the sweep above `dedupe_max_rows`
unfoldable pub cap_seen : ℕ → List SeenEvent → List SeenEvent
cap_seen max_rows rows =
    let overflow = length rows - max_rows in
    if ltb 0 overflow then evict_seen overflow rows else rows

unfoldable pub fresh_seen : ℕ → WakeStore → List SeenEvent
unfolding is_stale
fresh_seen now st = keep (λ r. not (is_stale now st.limits.dedupe_ttl_seconds r)) st.dedupe

-- the dedupe table after its two sweeps
unfoldable pub sweep_dedupe : ℕ → WakeStore → List SeenEvent
sweep_dedupe now st = cap_seen st.limits.dedupe_max_rows (fresh_seen now st)

unfoldable pub is_expired : ℕ → PendingEvent → Bool
is_expired now r = leb r.expires_at now

-- `created_at < now - dead_letter_ttl_seconds`
unfoldable pub is_outdated : ℕ → ℕ → DeadLetter → Bool
is_outdated now ttl d = ltb (d.created_at + ttl) now

-- `(redrive_status = 'ok') DESC`: 1, then 0, then NULL, which SQLite puts last in this order
unfoldable pub redrive_rank : Option String → ℕ
redrive_rank none = 2
redrive_rank (some s) = if s == "ok" then 0 else 1

-- `CASE kind WHEN 'human_delivery' THEN 2 WHEN 'reply' THEN 1 ELSE 0 END ASC`
unfoldable pub kind_rank : String → ℕ
kind_rank k = if k == "human_delivery" then 2 else if k == "reply" then 1 else 0

-- a stands before b, or ties with it, in the order of eviction
unfoldable pub evicts_before : DeadLetter → DeadLetter → Bool
unfolding redrive_rank kind_rank
evicts_before a b =
    ltb (redrive_rank a.redrive_status) (redrive_rank b.redrive_status)
    || eqb (redrive_rank a.redrive_status) (redrive_rank b.redrive_status)
      && (ltb (kind_rank a.kind) (kind_rank b.kind)
          || eqb (kind_rank a.kind) (kind_rank b.kind) && leb a.created_at b.created_at)

unfoldable pub victims : ℕ → List DeadLetter → List DeadLetter
unfolding evicts_before
victims n rows = take n (sort_by evicts_before rows)

-- `executemany("DELETE … WHERE id = ?", victims)`
unfoldable pub evict_dead_letters : ℕ → List DeadLetter → List DeadLetter
unfolding victims
evict_dead_letters n rows =
    let gone = map (λ d. d.id) (victims n rows) in keep (λ d. not (contains gone d.id)) rows

-- the sweep above `dead_letter_max_rows`
unfoldable pub cap_dead_letters : ℕ → List DeadLetter → List DeadLetter
cap_dead_letters max_rows rows =
    let overflow = length rows - max_rows in
    if ltb 0 overflow then evict_dead_letters overflow rows else rows

unfoldable pub fresh_dead_letters : ℕ → WakeStore → List DeadLetter
unfolding is_outdated
fresh_dead_letters now st =
    keep (λ d. not (is_outdated now st.limits.dead_letter_ttl_seconds d)) st.dead_letters

-- the dead-letter table after its two sweeps
unfoldable pub sweep_dead_letters : ℕ → WakeStore → List DeadLetter
sweep_dead_letters now st =
    cap_dead_letters st.limits.dead_letter_max_rows (fresh_dead_letters now st)

unfoldable pub expiry_error : ℕ → String → String
expiry_error ttl source =
    text_append "expired after "
      (text_append (decimal ttl) (text_append "s with no session for source " (repr (str source))))

-- The last loop of `prune`. `ulid i` is the id of the i-th new dead letter, `at` the clock there.
unfoldable pub promote : (ℕ → String) → ℕ → ℕ → List PendingEvent → WakeStore → WakeStore
unfolding insert_dead_letter expiry_error
promote ulid i at [] st = st
promote ulid i at (pe ∷ expired) st = promote ulid (suc i) at expired (
    insert_dead_letter (ulid i) at "next_session" pe.source pe.event_id pe.event
      (some (expiry_error st.limits.pending_ttl_seconds pe.source)) pe.attempts st)

unfoldable pub expires_before : PendingEvent → PendingEvent → Bool
expires_before a b = leb a.expires_at b.expires_at

-- The SELECT has no ORDER BY; SQLite reads its rows from the index on `expires_at`, and those of one time
-- by their row id.
unfoldable pub expired_pending : ℕ → WakeStore → List PendingEvent
unfolding is_expired expires_before
expired_pending now st = sort_by expires_before (keep (is_expired now) st.pending)

-- the tables at the commit, before the expired events are dead-lettered
unfoldable pub swept : ℕ → WakeStore → WakeStore
unfolding is_expired
swept now st = record st {
  dedupe = sweep_dedupe now st;
  pending = keep (λ r. not (is_expired now r)) st.pending;
  dead_letters = sweep_dead_letters now st;
  inserts_since_prune = 0;
}

unfoldable pub prune : (ℕ → String) → ℕ → ℕ → WakeStore → WakeStore
prune ulid now at st = promote ulid 0 at (expired_pending now st) (swept now st)

-- the two counts that are logged as permanent loss
unfoldable pub ttl_unredriven : ℕ → WakeStore → ℕ
unfolding is_outdated unredriven
ttl_unredriven now st = length (
    keep (λ d. is_outdated now st.limits.dead_letter_ttl_seconds d && unredriven d) st.dead_letters)

unfoldable pub cap_unredriven : ℕ → WakeStore → ℕ
unfolding unredriven victims fresh_dead_letters
cap_unredriven now st =
    let live = fresh_dead_letters now st in
    length (keep unredriven (victims (length live - st.limits.dead_letter_max_rows) live))
