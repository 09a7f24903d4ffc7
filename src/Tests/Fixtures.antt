-- ===== src/Tests/Fixtures.antt =====
-- The test data.
use agent_wake.Prelude.{ℕ, String, Option, none, some, List, [], ◌∷◌}
use agent_wake.Json.{Fields, str, arr, obj, nil, cons, end, field}
use agent_wake.Store.State.{Limits, WakeStore, PendingEvent, DeadLetter}
use agent_wake.Router.State.{Router, Subscriber, Waiter}

-- two destinations, one of them only for the adapter `claude`, and a sender that reaches both
abbrev pub config : Fields
config =
    field "destinations"
      (obj (
        field "desk" (obj (field "adapter" (str "claude") (field "principal" (str "ann") end)))
          (field "laptop" (obj end) end)))
      (field "routes"
        (arr (
          cons
            (obj (
              field "sender" (str "ci")
                (field "destinations" (arr (cons (str "desk") (cons (str "laptop") nil))) end)))
            nil))
        (field "senders"
          (obj (
            field "ci" (obj (field "allowed_target_principals" (arr (cons (str "ann") nil)) end))
              end))
          (field "state" (obj (field "default_delivery" (str "next_session") end)) end)))

abbrev pub live_config : Fields
live_config = field "state" (obj (field "default_delivery" (str "live_only") end)) end

abbrev pub legacy_config : Fields
legacy_config = field "sources" (obj (field "ci" (obj end) (field "cron" (obj end) end))) end

abbrev pub event : String → String → Fields
event id source = field "event_id" (str id) (field "source" (str source) end)

abbrev pub limits : Limits
limits = record {
  dedupe_ttl_seconds = 100;
  dedupe_max_rows = 3;
  pending_ttl_seconds = 10;
  pending_max_rows = 2;
  pending_max_attempts = 1;
  dead_letter_ttl_seconds = 100;
  dead_letter_max_rows = 1;
}

abbrev pub row : ℕ → String → ℕ → PendingEvent
row i id attempts = record {
  row_id = i;
  event_id = id;
  source = "ci";
  destination = some "desk";
  target = none;
  event = event id "ci";
  enqueued_at = 0;
  expires_at = 10;
  attempts = attempts;
}

abbrev pub letter : String → String → Option String → ℕ → DeadLetter
letter id kind status created = record {
  id = id;
  kind = kind;
  source = "ci";
  ref_id = id;
  payload = event id "ci";
  error = none;
  attempts = 3;
  created_at = created;
  redriven_at = none;
  redrive_status = status;
}

-- two letters, of which the second has had a failed redrive
abbrev pub letters : List DeadLetter
letters = letter "d1" "next_session" none 1 ∷ letter "d2" "human_delivery" (some "failed") 2 ∷ []

-- a database with rows in the queue and nothing else
abbrev pub store_of : List PendingEvent → WakeStore
store_of rows = record {
  limits = limits;
  inserts_since_prune = 0;
  dedupe = [];
  pending = rows;
  next_row_id = 9;
  dead_letters = letters;
}

abbrev pub two_rows : WakeStore
two_rows = store_of (row 1 "e1" 0 ∷ row 2 "e2" 1 ∷ [])

abbrev pub subscriber_of : String → Subscriber
subscriber_of sid = record {
  session_id = sid;
  adapter = "claude";
  instance_name = "i";
  sources = "ci" ∷ [];
  destinations = "desk" ∷ [];
  in_flight = 1;
  connected_at = 0;
}

-- one session, which serves `desk`, and a waiter for its ack of the first row
abbrev pub router_of : Fields → Option WakeStore → Router
router_of cfg store = record {
  config = cfg;
  store = store;
  subscribers = subscriber_of "s1" ∷ [];
  order = "s1" ∷ [];
  pending_acks = record { ack_id = "a1"; result = some "ack" } ∷ [];
  background_tasks = [];
  consecutive_queued = [];
  ever_subscribed = [];
}

abbrev pub waiter : Waiter
waiter = record { source = "ci"; ack_id = "a1"; session_id = "s1"; row = some (row 1 "e1" 0) }

abbrev pub ulid : ℕ → String
ulid n = "01"
