-- ===== src/Cli/Redrive.antt =====
-- `agent-wake dead-letter redrive` of cli/queue.py: a dead letter is tried again and marked.
pub mod Marked
pub mod Lost
use Prim.Native.String.{◌++◌ as text_append}
use agent_wake.Prelude.{
  ℕ, String, Bool, true, false, not, ◌&&◌, ◌||◌, Option, none, some, List, [], ◌∷◌, ◌==◌,
  if◌then◌else◌, map, keep,
}
use agent_wake.Json.{
  Json, Items, Fields, str, arr, obj, end, get, put, as_obj, as_arr, elements, py_str, text_at,
}
use agent_wake.Store.State.{WakeStore, DeadLetter}
use agent_wake.Store.Queue.{enqueue_pending}
use agent_wake.Store.DeadLetters.{get_dead_letter, mark_redriven}
use agent_wake.Outbox.{Outbox, Attempt, Reply, ReplyWorld, Replied, replied, raises, deliver_reply}
use agent_wake.Delivery.{HumanDelivery, DeliveryWorld, Ended, ended, cancelled_error, deliver_alert}
use agent_wake.Delivery.Channels.{Answer, ChannelResult}

-- What the command does in the end: the action that succeeded, the error code with its `retryable`,
-- or the exception that ends the process.
pub data Outcome : Type 0 where
  succeeded : String → Outcome
  refused : String → Bool → Outcome
  interrupted : Outcome

-- What a redrive reads from its surroundings: the clocks at the enqueue and at the mark, the answers of
-- the callback and of the channels, what else `urlparse` refuses of a host, and whether the command is
-- interrupted while a reply is posted.
pub record RedriveWorld : Type 0 where
  pub enqueue_now : ℕ
  pub mark_now : ℕ
  pub callback : ℕ → Attempt
  pub refuses_host : String → Bool
  pub is_interrupted : Bool
  pub channels : String → Answer

abbrev pub mark_of : Bool → String
mark_of true = "ok"
mark_of false = "failed"

-- `error` is passed to the mark as it is, and kept from before if it is None
unfoldable pub mark : RedriveWorld → String → Bool → Option String → WakeStore → WakeStore
mark w id ok error st = mark_redriven w.mark_now id (mark_of ok) error st

-- the branch of a queued event: its payload is enqueued again
unfoldable pub redrive_next_session : RedriveWorld → DeadLetter → WakeStore → WakeStore × Outcome
unfolding mark
redrive_next_session w entry st =
    let (st', requeued) = enqueue_pending w.enqueue_now entry.payload none st in
    (
      mark w entry.id requeued none st',
      (if requeued then succeeded "requeued" else refused "REDRIVE_FAILED" true),
    )

-- `Outbox(cfg, store=None)`, with the retries and delays of outbox.py
unfoldable pub redrive_outbox : Fields → Outbox
redrive_outbox cfg = record {
  config = cfg;
  max_retries = 3;
  backoff_delays = 1 ∷ 4 ∷ 16 ∷ [];
  store = none;
}

-- the reply that `_redrive_reply` makes of a payload
unfoldable pub reply_of : Fields → Reply
reply_of payload = record {
  source = text_at "source" payload;
  reply_id = text_at "reply_id" payload;
  in_reply_to = text_at "in_reply_to" payload;
  content = text_at "content" payload;
  reply_destination = none;
}

-- without a store the outbox reads neither the id of a dead letter nor a clock
abbrev reply_world : RedriveWorld → ReplyWorld
reply_world w = record {
  rejects = w.refuses_host;
  answers = w.callback;
  is_cancelled = w.is_interrupted;
  meanwhile = λ o. o;
  write_fails = false;
  letter_id = "";
  now = 0;
}

unfoldable pub redriven_reply : RedriveWorld → Fields → Fields → Replied
unfolding redrive_outbox reply_of
redriven_reply w cfg payload =
    (deliver_reply (reply_world w) (reply_of payload) (redrive_outbox cfg)).1

unfoldable pub finish_reply : RedriveWorld → DeadLetter → Replied → WakeStore → WakeStore × Outcome
unfolding mark
finish_reply w entry raises st = (st, interrupted)
finish_reply w entry (replied r) st =
    let ok = r.status == "delivered" in
    (
      mark w entry.id ok r.error st,
      (if ok then succeeded "delivered" else refused "REDRIVE_FAILED" true),
    )

unfoldable pub redrive_reply : RedriveWorld → Fields → DeadLetter → WakeStore → WakeStore × Outcome
unfolding finish_reply redriven_reply
redrive_reply w cfg entry st = finish_reply w entry (redriven_reply w cfg entry.payload) st

-- `[str(c) for c in already]`, for a list
unfoldable pub skip_of : Fields → List String
skip_of payload = elim (as_arr (get "delivered_channels" payload)) [
  | none ↦ []
  | some xs ↦ map py_str (elements xs)
]

abbrev fields_or_empty : Option Fields → Fields
fields_or_empty none = end
fields_or_empty (some d) = d

-- the event with its recorded principal as the target; a `meta` that is no dictionary, on which `dict`
-- raises, is left out
unfoldable pub retarget : String → Fields → Fields
retarget principal_id event =
    if principal_id == ""
    then event
    else put "meta"
        (obj (put "target" (str principal_id) (fields_or_empty (as_obj (get "meta" event))))) event

-- `HumanDelivery(cfg, …, store=None)`
unfoldable pub redrive_delivery : Fields → HumanDelivery
redrive_delivery cfg = record {
  config = cfg;
  adapters = "webhook" ∷ "email" ∷ [];
  health = record {
    failures = [];
    unknown_principals = [];
    delivered_count = 0;
    lost_alerts = 0;
    last_lost_alert = none;
  };
  store = none;
}

-- without a store the delivery reads neither the id of a dead letter nor a clock
abbrev delivery_world : RedriveWorld → DeliveryWorld
delivery_world w = record {
  answers = w.channels;
  write_fails = false;
  dead_letter_id = "";
  now = 0;
}

unfoldable pub redriven_alert : RedriveWorld → Fields → Fields → Fields → Ended
unfolding redrive_delivery retarget skip_of
redriven_alert w cfg payload event =
    (deliver_alert (delivery_world w) (retarget (text_at "principal_id" payload) event)
      (skip_of payload) (redrive_delivery cfg)).1

-- `c.get("error") or c.get("status")`
abbrev error_or_status : Option String → String → String
error_or_status none status = status
error_or_status (some e) status = if e == "" then status else e

-- `"; ".join(parts)`
unfoldable pub joined : List String → String
joined [] = ""
joined (p ∷ []) = p
joined (p ∷ q ∷ ps) = text_append p (text_append "; " (joined (q ∷ ps)))

-- `_delivery_error`
unfoldable pub delivery_error : String → List ChannelResult → String
unfolding joined
delivery_error status results =
    let bad = keep (λ r. not (r.status == "delivered" || r.status == "skipped")) results in
    let parts =
      map (λ r. text_append r.channel (text_append ": " (error_or_status r.error r.status))) bad in
    elim parts [ [] ↦ status | p ∷ ps ↦ joined (p ∷ ps) ]

unfoldable pub finish_alert : RedriveWorld → DeadLetter → Ended → WakeStore → WakeStore × Outcome
unfolding mark delivery_error
finish_alert w entry cancelled_error st = (st, interrupted)
finish_alert w entry (ended status principal results) st =
    let ok = status == "delivered" in
    (
      mark w entry.id ok (some (delivery_error status results)) st,
      (if ok then succeeded "delivered" else refused "REDRIVE_FAILED" true),
    )

unfoldable pub redrive_alert : RedriveWorld → Fields → DeadLetter → WakeStore → WakeStore × Outcome
unfolding redriven_alert finish_alert
redrive_alert w cfg entry st = elim (as_obj (get "event" entry.payload)) [
  | none ↦ (st, refused "INTERNAL_ERROR" false)
  | some event ↦ finish_alert w entry (redriven_alert w cfg entry.payload event) st
]

-- `not cfg`
abbrev pub is_empty : Fields → Bool
is_empty end = true
is_empty _ = false

unfoldable pub redrive_entry : RedriveWorld → Fields → DeadLetter → WakeStore → WakeStore × Outcome
unfolding redrive_next_session redrive_reply redrive_alert
redrive_entry w cfg entry st =
    if entry.kind == "next_session"
    then redrive_next_session w entry st
    else if entry.kind == "reply"
    then (if is_empty cfg then (st, refused "CONFIG_ERROR" false) else redrive_reply w cfg entry st)
    else if entry.kind == "human_delivery"
    then (if is_empty cfg then (st, refused "CONFIG_ERROR" false) else redrive_alert w cfg entry st)
    else (st, refused "INTERNAL_ERROR" false)

-- `_cmd_dead_letter_redrive`; `cfg` is empty when it cannot be loaded
unfoldable pub redrive : RedriveWorld → Fields → String → WakeStore → WakeStore × Outcome
unfolding redrive_entry
redrive w cfg id st = elim (get_dead_letter id st) [
  | none ↦ (st, refused "NOT_FOUND" false)
  | some entry ↦ redrive_entry w cfg entry st
]
