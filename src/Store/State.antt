-- ===== src/Store/State.antt =====
-- The tables of store.py. A table is the list of its rows in order of their row id, which is the
-- order in which they were inserted. Times and lifetimes are whole units of one clock.
use agent_wake.Prelude.{ℕ, String, Option, List, [], ◌==◌, some, Bool, none, false}
use agent_wake.Json.{Fields}

-- A row of the dedupe table.
pub record SeenEvent : Type 0 where
  pub event_id : String
  pub source : String
  pub seen_at : ℕ

-- A row of the pending table, and what `_pending_from_row` makes of it.
pub record PendingEvent : Type 0 where
  pub row_id : ℕ
  pub event_id : String
  pub source : String
  pub destination : Option String
  pub target : Option String
  pub event : Fields
  pub enqueued_at : ℕ
  pub expires_at : ℕ
  pub attempts : ℕ

-- A row of the dead_letter table, and what `_dead_letter_from_row` makes of it.
pub record DeadLetter : Type 0 where
  pub id : String
  pub kind : String
  pub source : String
  pub ref_id : String
  pub payload : Fields
  pub error : Option String
  pub attempts : ℕ
  pub created_at : ℕ
  pub redriven_at : Option ℕ
  pub redrive_status : Option String

-- The keyword arguments of the constructor.
pub record Limits : Type 0 where
  pub dedupe_ttl_seconds : ℕ
  pub dedupe_max_rows : ℕ
  pub pending_ttl_seconds : ℕ
  pub pending_max_rows : ℕ
  pub pending_max_attempts : ℕ
  pub dead_letter_ttl_seconds : ℕ
  pub dead_letter_max_rows : ℕ

abbrev pub default_limits : Limits
default_limits = record {
  dedupe_ttl_seconds = 604800;
  dedupe_max_rows = 100000;
  pending_ttl_seconds = 604800;
  pending_max_rows = 10000;
  pending_max_attempts = 5;
  dead_letter_ttl_seconds = 2592000;
  dead_letter_max_rows = 20000;
}

-- _PRUNE_INTERVAL
abbrev pub prune_interval : ℕ
prune_interval = 256

pub record WakeStore : Type 0 where
  pub limits : Limits
  pub inserts_since_prune : ℕ
  pub dedupe : List SeenEvent
  pub pending : List PendingEvent
  -- the row id that AUTOINCREMENT gives next
  pub next_row_id : ℕ
  pub dead_letters : List DeadLetter

-- A new database.
abbrev pub empty_store : Limits → WakeStore
empty_store l = record {
  limits = l;
  inserts_since_prune = 0;
  dedupe = [];
  pending = [];
  next_row_id = 1;
  dead_letters = [];
}

-- `s == t` on an optional column, where SQL's NULL equals nothing
unfoldable pub column_is : Option String → String → Bool
column_is none t = false
column_is (some s) t = s == t
