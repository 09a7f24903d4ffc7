-- ===== src/Router/State.antt =====
-- The state of `Router`. Its maps are association lists in order of insertion, and a connection is
-- known by its session id.
use agent_wake.Prelude.{ℕ, String, not, Option, List, [], ◌∷◌, ◌==◌, if◌then◌else◌, find, keep}
use agent_wake.Json.{Fields}
use agent_wake.Store.State.{WakeStore, PendingEvent}

-- `_Subscriber`
pub record Subscriber : Type 0 where
  pub session_id : String
  pub adapter : String
  pub instance_name : String
  pub sources : List String
  pub destinations : List String
  pub in_flight : ℕ
  pub connected_at : ℕ

-- A background task in `_wait_for_ack`; `row` is the queued event that its callback settles.
pub record Waiter : Type 0 where
  pub source : String
  pub ack_id : String
  pub session_id : String
  pub row : Option PendingEvent

-- A future of `_pending_acks`, with its result once that is set.
pub record AckFuture : Type 0 where
  pub ack_id : String
  pub result : Option String

pub record Router : Type 0 where
  pub config : Fields
  pub store : Option WakeStore
  pub subscribers : List Subscriber
  pub order : List String
  pub pending_acks : List AckFuture
  pub background_tasks : List Waiter
  pub consecutive_queued : List (String × ℕ)
  pub ever_subscribed : List String

unfoldable pub init : Fields → Option WakeStore → Router
init config store = record {
  config = config;
  store = store;
  subscribers = [];
  order = [];
  pending_acks = [];
  background_tasks = [];
  consecutive_queued = [];
  ever_subscribed = [];
}

-- `self._subscribers.get(session_id)`
unfoldable pub subscriber : String → List Subscriber → Option Subscriber
subscriber sid = find (λ s. s.session_id == sid)

-- `self._subscribers[session_id] = sub`
unfoldable pub set_subscriber : Subscriber → List Subscriber → List Subscriber
set_subscriber sub [] = sub ∷ []
set_subscriber sub (s ∷ subs) =
    if s.session_id == sub.session_id then sub ∷ subs else s ∷ set_subscriber sub subs

-- `dict.pop(key, None)` and `list.remove(value)`, which drops the first
unfoldable pub without : String → List Subscriber → List Subscriber
without sid = keep (λ s. not (s.session_id == sid))

unfoldable pub remove_first : String → List String → List String
remove_first x [] = []
remove_first x (y ∷ ys) = if y == x then ys else y ∷ remove_first x ys

-- the counter of a destination, and its write
unfoldable pub count_of : String → List (String × ℕ) → ℕ
count_of k [] = 0
count_of k ((j, n) ∷ m) = if j == k then n else count_of k m

unfoldable pub set_count : String → ℕ → List (String × ℕ) → List (String × ℕ)
set_count k n [] = (k, n) ∷ []
set_count k n ((j, c) ∷ m) = if j == k then (k, n) ∷ m else (j, c) ∷ set_count k n m

unfoldable pub pop_count : String → List (String × ℕ) → List (String × ℕ)
pop_count k = keep (λ e. not (e.0 == k))
