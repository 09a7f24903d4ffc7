-- ===== src/Outbox.antt =====
-- daemon/src/agent_waked/outbox.py: replies to the callback of a source, their retries, and the dead
-- letter of one that fails.
pub mod Url
pub mod Callback
pub mod Retry
use Prim.Native.String.{◌++◌ as text_append}
use agent_wake.Prelude.{
  ℕ, zero, suc, ◌+◌, ◌-◌, min, String, Bool, true, false, ◌&&◌, Option, none, some, List, [], ◌∷◌,
  ◌++◌, ◌==◌, if◌then◌else◌, leb, ltb, length,
}
use agent_wake.Json.{
  Json, Fields, int, pos, str, obj, end, field, get, truthy, as_str, py_str, text_at, decimal,
}
use agent_wake.Addressing.Tables.{Destination, sender, destination}
use agent_wake.Store.State.{WakeStore}
use agent_wake.Store.DeadLetters.{insert_dead_letter}
use agent_wake.Outbox.Callback.{allowed, disallowed, unparsable, validate_callback_url}

pub record Outbox : Type 0 where
  pub config : Fields
  pub max_retries : ℕ
  pub backoff_delays : List ℕ
  pub store : Option WakeStore

-- What a POST gives: the status of the response, or the text of the exception.
pub data Attempt : Type 0 where
  response : ℕ → Attempt
  raised : String → Attempt

-- What the attempts leave: the status of the delivery, or the last status and error; and the delays.
pub record Tried : Type 0 where
  pub delivered : Option ℕ
  pub last_http_status : Option ℕ
  pub last_error : Option String
  pub slept : List ℕ

pub record ReplyResult : Type 0 where
  pub reply_id : String
  pub status : String
  pub http_status : Option ℕ
  pub error : Option String
  pub dead_letter_id : Option String

-- `200 <= resp.status < 300`
unfoldable pub is_success : Attempt → Bool
is_success (response s) = leb 200 s && ltb s 300
is_success (raised msg) = false

abbrev http_error : ℕ → String
http_error s = text_append "HTTP " (decimal s)

-- the note of an attempt that did not succeed; an exception leaves the last status
unfoldable pub note_failure : Attempt → Tried → Tried
note_failure (response s) t = record t {
  last_http_status = some s;
  last_error = some (http_error s);
}
note_failure (raised msg) t = record t { last_error = some msg }

unfoldable pub note_success : Attempt → Tried → Tried
note_success (response s) t = record t { delivered = some s }
note_success (raised msg) t = t

-- the delay at an index; the tuple of delays is not empty
unfoldable pub delay_at : ℕ → List ℕ → ℕ
delay_at i [] = 0
delay_at zero (d ∷ ds) = d
delay_at (suc i) (d ∷ ds) = delay_at i ds

unfoldable pub backoff : ℕ → List ℕ → ℕ
unfolding delay_at
backoff attempt delays = delay_at (min attempt (length delays - 1)) delays

-- after an attempt that did not succeed, with `left` more to go: the last one is followed by no delay
unfoldable pub after_failure : Attempt → List ℕ → ℕ → ℕ → Tried → Tried
unfolding note_failure backoff
after_failure a delays left attempt t =
    let t' = note_failure a t in
    if ltb 0 left then record t' { slept = t'.slept ++ backoff attempt delays ∷ [] } else t'

-- the rest of the loop, with `left` attempts to go
unfoldable pub try_from : (ℕ → Attempt) → List ℕ → ℕ → ℕ → Tried → Tried
unfolding note_success after_failure
try_from answers delays zero attempt t = t
try_from answers delays (suc left) attempt t =
    let rest =
      try_from answers delays left (attempt + 1)
        (after_failure (answers attempt) delays left attempt t) in
    if is_success (answers attempt) then note_success (answers attempt) t else rest

unfoldable pub try_all : (ℕ → Attempt) → Outbox → Tried
unfolding try_from
try_all answers o =
    try_from answers o.backoff_delays o.max_retries 0
      (record { delivered = none; last_http_status = none; last_error = none; slept = [] })

-- the callback of the source, or else the default one, if either is truthy; one that is no text, on
-- which `urlparse` raises, is left out
unfoldable pub callback_url : Fields → String → Option String
callback_url config source =
    let own : Option Json = elim (sender config source) [
      | none ↦ none
      | some entry ↦ get "callback_url" entry
    ] in
    if truthy own
    then as_str own
    else if truthy (get "default_callback_url" config)
    then as_str (get "default_callback_url" config)
    else none

-- `peer_identity`
unfoldable pub peer_identity : Fields → Option String → Fields
peer_identity config none = end
peer_identity config (some name) = if name == "" then end else elim (destination config name) [
  | none ↦ field "destination" (str name) end
  | some dest ↦ elim dest.principal [
    | none ↦ field "destination" (str name) end
    | some p ↦
        if p == ""
        then field "destination" (str name) end
        else field "destination" (str name) (field "principal" (str p) end)
  ]
]

-- A reply: its source, id, the event that it answers, its content and its destination.
pub record Reply : Type 0 where
  pub source : String
  pub reply_id : String
  pub in_reply_to : String
  pub content : String
  pub reply_destination : Option String

-- the JSON body of the POST
unfoldable pub reply_body : Fields → Reply → Fields
unfolding peer_identity
reply_body config r = field "v" (int (pos 0)) (
    field "in_reply_to" (str r.in_reply_to) (
      field "content" (str r.content)
        (field "meta" (obj (peer_identity config r.reply_destination)) end)))

abbrev put_destination : Option String → Fields
put_destination none = end
put_destination (some d) = field "destination" (str d) end

unfoldable pub letter_payload : Reply → Fields
letter_payload r = field "source" (str r.source) (
    field "reply_id" (str r.reply_id) (
      field "in_reply_to" (str r.in_reply_to)
        (field "content" (str r.content) (put_destination r.reply_destination))))

-- `_dead_letter`; the result is the new id, if there is a store
unfoldable pub outbox_letter :
    String → ℕ → Reply → Option String → ℕ → Option WakeStore → Option WakeStore × Option String
unfolding letter_payload
outbox_letter dl_id now r error attempts none = (none, none)
outbox_letter dl_id now r error attempts (some st) = (
  some (
      insert_dead_letter dl_id now "reply" r.source r.reply_id (letter_payload r) error attempts
        st),
  some dl_id,
)

abbrev result_of : Reply → String → Option ℕ → Option String → Option String → ReplyResult
result_of r status http_status error dl_id = record {
  reply_id = r.reply_id;
  status = status;
  http_status = http_status;
  error = error;
  dead_letter_id = dl_id;
}

-- What a reply reads from its surroundings: what else `urlparse` refuses of a host, what the callback
-- answers at each attempt, whether the task is cancelled while it waits for an answer or between two
-- attempts, what the other tasks do to the outbox's store in between, whether the store raises when it is
-- to take a dead letter, the id of that and the clock there.
pub record ReplyWorld : Type 0 where
  pub rejects : String → Bool
  pub answers : ℕ → Attempt
  pub is_cancelled : Bool
  pub meanwhile : Outbox → Outbox
  pub write_fails : Bool
  pub letter_id : String
  pub now : ℕ

-- The result of `deliver`, or an exception that it does not catch.
pub data Replied : Type 0 where
  replied : ReplyResult → Replied
  raises : Replied

-- `_dead_letter` writes to a store, and that raises
unfoldable pub letter_raises : ReplyWorld → Outbox → Bool
letter_raises w o = w.write_fails && elim o.store [ none ↦ false | some st ↦ true ]

-- a reply that is given up, with its status and error
unfoldable pub give_up :
    ReplyWorld → Reply → String → Option ℕ → Option String → ℕ → Outbox → Outbox × Replied
unfolding letter_raises outbox_letter
give_up w r status http_status error attempts o = if letter_raises w o then (o, raises) else (
  record o { store = (outbox_letter w.letter_id w.now r error attempts o.store).0 },
  replied (
      result_of r status http_status error (
        if status == "failed"
        then (outbox_letter w.letter_id w.now r error attempts o.store).1
        else none)),
)

-- after the attempts
unfoldable pub conclude : ReplyWorld → Reply → Tried → Outbox → Outbox × Replied
unfolding give_up
conclude w r t o = elim t.delivered [
  | some s ↦ (o, replied (result_of r "delivered" (some s) none none))
  | none ↦ give_up w r "failed" t.last_http_status t.last_error o.max_retries o
]

-- `deliver`. The signature header is left out.
unfoldable pub deliver_reply : ReplyWorld → Reply → Outbox → Outbox × Replied
unfolding callback_url conclude give_up
deliver_reply w r o = elim (callback_url o.config r.source) [
  | none ↦ (o, replied (result_of r "no_callback" none none none))
  | some url ↦ elim (validate_callback_url w.rejects url) [
    | unparsable ↦ (o, raises)
    | disallowed err ↦ give_up w r "rejected" none (some err) 0 o
    | allowed ↦
        if w.is_cancelled
        then (w.meanwhile o, raises)
        else conclude w r (try_all w.answers o) (w.meanwhile o)
  ]
]
