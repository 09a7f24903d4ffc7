-- ===== src/Store/Fifo.antt =====
-- The contract of the next-session queue: a queue of messages for each destination.
pub mod Commute
pub mod View
pub mod Refines
use agent_wake.Prelude.{
  ℕ, ◌+◌, ◌≤◌, ◌<◌, String, ◌≡◌, ◌⊎◌, Bool, true, false, not, Option, none, some, List, [], ◌∷◌,
  ◌++◌, map, ◌==◌, if◌then◌else◌, ltb, leb, eqb, length, take, keep, any,
}
use agent_wake.Json.{Fields, text_at}
use agent_wake.Store.State.{WakeStore, PendingEvent}
use agent_wake.Store.Queue.{is_addressed, or_source, claim_pending}
use agent_wake.Store.Prune.{is_expired}
use agent_wake.Store.Dedupe.Replay.{Check}
use agent_wake.Store.Invariant.{
  Op, check, enqueue, claim, delete, letter, mark, purge, sweep, apply,
}

-- What a receiver sees of a queued event: the id that it acknowledges, the event, and its expiry.
pub record Message : Type 0 where
  pub row_id : ℕ
  pub event_id : String
  pub event : Fields
  pub expires_at : ℕ

-- The messages of each destination, oldest first, and how many there are in all.
pub record Queues : Type 0 where
  pub queue : String → List Message
  pub size : ℕ

abbrev pub has_event : String → List Message → Bool
has_event id = any (λ m. m.event_id == id)

abbrev pub unexpired : ℕ → Message → Bool
unexpired now m = ltb now m.expires_at

-- the calls on the other tables
abbrev pub IsAside : Op → Type 0
IsAside (check c) = Unit
IsAside (letter i now kind source ref payload error n) = Unit
IsAside (mark now i status error) = Unit
IsAside (purge now age only) = Unit
IsAside op = ⊥

-- A call on the queues, what it hands out, and the queues after it. An offer is taken if its event has an
-- id, no queue has the id, and there is room; it is refused only if one of these fails. To receive is
-- to read from the front, and removes nothing; only an acknowledgement or the time removes a message.
pub data Step (room : ℕ) (q : Queues) : Op → List Message → Queues → Type 0 where
  taken :
      (now : ℕ) (event : Fields) (d : Option String) (m : Message) (q' : Queues)
      → m.event ≡ event
      → m.event_id ≡ text_at "event_id" event
      → (text_at "event_id" event == "") ≡ false
      → ((e : String) → has_event (text_at "event_id" event) (q.queue e) ≡ false)
      → q.size < room
      → ((e : String)
          → q'.queue e ≡ (
              if or_source d (text_at "source" event) == e then q.queue e ++ m ∷ [] else q.queue e))
      → q'.size ≡ q.size + 1
      → Step room q (enqueue now event d) [] q'
  refused :
      (now : ℕ) (event : Fields) (d : Option String)
      → (((text_at "event_id" event == "") ≡ true)
          ⊎ (((e : String) × (has_event (text_at "event_id" event) (q.queue e) ≡ true))
              ⊎ (room ≤ q.size)))
      → Step room q (enqueue now event d) [] q
  received :
      (now : ℕ) (d : String) (limit : ℕ) (out : List Message) (q' : Queues)
      → out ≡ take limit (keep (unexpired now) (q.queue d))
      → ((e : String) → q'.queue e ≡ q.queue e)
      → q'.size ≡ q.size
      → Step room q (claim now d limit) out q'
  acknowledged :
      (i : ℕ) (q' : Queues)
      → ((e : String) → q'.queue e ≡ keep (λ m. not (eqb m.row_id i)) (q.queue e))
      → q'.size ≤ q.size
      → Step room q (delete i) [] q'
  expired :
      (now at : ℕ) (q' : Queues)
      → ((e : String) → q'.queue e ≡ keep (unexpired now) (q.queue e))
      → q'.size ≤ q.size
      → Step room q (sweep now at) [] q'
  -- a check of the dedupe window, when a sweep is due
  swept :
      (c : Check) (q' : Queues)
      → ((e : String) → q'.queue e ≡ keep (unexpired c.sweep) (q.queue e))
      → q'.size ≤ q.size
      → Step room q (check c) [] q'
  -- what is done to the other tables
  aside :
      (op : Op) (q' : Queues)
      → IsAside op
      → ((e : String) → q'.queue e ≡ q.queue e)
      → q'.size ≡ q.size
      → Step room q op [] q'

-- A run of calls, with what each hands out.
pub data Steps (room : ℕ) : Queues → List Op → List (List Message) → Queues → Type 0 where
  done : {q : Queues} → Steps room q [] [] q
  and_then :
      {op : Op} {ops : List Op} {out : List Message} {outs : List (List Message)} {q q1 q2 : Queues}
      → Step room q op out q1
      → Steps room q1 ops outs q2
      → Steps room q (op ∷ ops) (out ∷ outs) q2

-- the abstraction: source, target, time of arrival and attempts are forgotten, and so is how the rows of
-- several destinations stand between each other
abbrev pub message_of : PendingEvent → Message
message_of r = record {
  row_id = r.row_id;
  event_id = r.event_id;
  event = r.event;
  expires_at = r.expires_at;
}

abbrev pub view : WakeStore → Queues
view st = record {
  queue = λ d. map message_of (keep (is_addressed d) st.pending);
  size = length st.pending;
}

-- the rows that a call hands out
unfoldable pub handed_out : WakeStore → Op → List Message
handed_out st (claim now d limit) = map message_of (claim_pending now d limit st).1
handed_out st op = []
