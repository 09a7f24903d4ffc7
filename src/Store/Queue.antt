-- ===== src/Store/Queue.antt =====
-- The next-session queue of store.py: enqueue, claim, delete and list.
pub mod Enqueue
pub mod Claim
use Prim.Native.String.{◌++◌ as text_append}
use agent_wake.Prelude.{
  ℕ, ◌+◌, String, Bool, true, false, ◌&&◌, ◌||◌, not, Option, none, some, List, [], ◌∷◌, ◌++◌, map,
  ◌==◌, if◌then◌else◌, leb, ltb, eqb, length, take, keep, any,
}
use agent_wake.Json.{Json, Fields, get, as_obj, as_str, text_at, truthy}
use agent_wake.Store.State.{WakeStore, PendingEvent, column_is}

-- `SELECT COUNT(*) FROM pending`
unfoldable pub pending_count : WakeStore → ℕ
pending_count st = length st.pending

-- the UNIQUE constraint on event_id
unfoldable pub is_queued : String → List PendingEvent → Bool
is_queued event_id = any (λ r. r.event_id == event_id)

-- `meta["target"]`, if `meta` is a dictionary and that is a text
unfoldable pub meta_target : Fields → Option String
meta_target event = elim (as_obj (get "meta" event)) [
  | none ↦ none
  | some meta ↦ as_str (get "target" meta)
]

unfoldable pub or_source : Option String → String → String
or_source none source = source
or_source (some destination) source = destination

unfoldable pub pending_row : ℕ → Fields → Option String → WakeStore → PendingEvent
unfolding meta_target or_source
pending_row now event destination st = record {
  row_id = st.next_row_id;
  event_id = text_at "event_id" event;
  source = text_at "source" event;
  destination = some (or_source destination (text_at "source" event));
  target = meta_target event;
  event = event;
  enqueued_at = now;
  expires_at = now + st.limits.pending_ttl_seconds;
  attempts = 0;
}

-- `now` is the reading of the clock. The result is the new state and the returned Boolean.
unfoldable pub enqueue_pending : ℕ → Fields → Option String → WakeStore → WakeStore × Bool
unfolding is_queued pending_row pending_count
enqueue_pending now event destination st =
    if text_at "event_id" event == ""
    then (st, false)
    else if leb st.limits.pending_max_rows (pending_count st)
    then (st, false)
    else if is_queued (text_at "event_id" event) st.pending
    then (st, false)
    else (
      record st {
        pending = st.pending ++ (pending_row now event destination st ∷ []);
        next_row_id = st.next_row_id + 1;
      },
      true,
    )

-- `destination = ? OR (destination IS NULL AND source = ?)`
unfoldable pub is_addressed : String → PendingEvent → Bool
is_addressed destination r = elim r.destination [
  | none ↦ r.source == destination
  | some d ↦ d == destination
]

unfoldable pub claimable : ℕ → String → PendingEvent → Bool
unfolding is_addressed
claimable now destination r = is_addressed destination r && ltb now r.expires_at

abbrev pub has_row_id : ℕ → PendingEvent → Bool
has_row_id i r = eqb r.row_id i

-- `UPDATE pending SET attempts = attempts + 1 WHERE id = ?`
unfoldable pub bump : ℕ → List PendingEvent → List PendingEvent
bump i = map (λ r. if eqb r.row_id i then record r { attempts = r.attempts + 1 } else r)

-- the loop over the claimed rows
unfoldable pub bump_all : List PendingEvent → List PendingEvent → List PendingEvent
unfolding bump
bump_all [] table = table
bump_all (row ∷ rows) table = bump_all rows (bump row.row_id table)

-- `_pending_from_row(row, attempts_delta=1)`
abbrev pub with_attempt : PendingEvent → PendingEvent
with_attempt r = record r { attempts = r.attempts + 1 }

unfoldable pub claim_rows : ℕ → String → ℕ → WakeStore → List PendingEvent
unfolding claimable
claim_rows now destination limit st = take limit (keep (claimable now destination) st.pending)

unfoldable pub claim_pending : ℕ → String → ℕ → WakeStore → WakeStore × List PendingEvent
unfolding bump_all claim_rows
claim_pending now destination limit st =
    let rows = claim_rows now destination limit st in
    (record st { pending = bump_all rows st.pending }, map with_attempt rows)

unfoldable pub delete_pending : ℕ → WakeStore → WakeStore
delete_pending i st = record st { pending = keep (λ r. not (eqb r.row_id i)) st.pending }

abbrev is_given : Option String → Bool
is_given none = false
is_given (some s) = not (s == "")

-- the operator's listing: by destination, else by source, else all; an empty text is no filter
unfoldable pub list_pending : Option String → ℕ → Option String → WakeStore → List PendingEvent
unfolding is_addressed or_source
list_pending source limit destination st =
    if is_given destination
    then take limit (keep (λ r. is_addressed (or_source destination "") r) st.pending)
    else if is_given source
    then take limit (keep (λ r. r.source == or_source source "") st.pending)
    else take limit st.pending
