-- ===== src/Ingest/Endpoint.antt =====
-- `post_root` of ingest.py: one signed request, from the rate limits to the router.
pub mod Signed
use agent_wake.Prelude.{
  ℕ, String, Bool, true, false, ◌||◌, not, Option, none, some, List, [], ◌∷◌, ◌++◌, ◌==◌,
  if◌then◌else◌, contains,
}
use agent_wake.Json.{
  Json, Fields, str, obj, end, field, get, put, set_default, truthy, as_obj, py_str, text_at,
}
use agent_wake.Ingest.World.{
  Request, Endpoint, Secrets, resolved, unresolved, inline, World, Response,
}
use agent_wake.Addressing.Legacy.{table}
use agent_wake.Addressing.Resolve.{out_of_band_principals, trigger_identity_for}
use agent_wake.Store.State.{WakeStore}
use agent_wake.Store.Dedupe.{check_and_record_event}
use agent_wake.Ingest.Signature.{verify_signature, verify_signature_any}
use agent_wake.Ingest.Trigger.{check_trigger_identity}
use agent_wake.Ingest.RateLimit.{SourceRateLimiter, allow}
use agent_wake.Ingest.Window.{Window, check}
use agent_wake.Ingest.WakeEvent.{
  Built, event, source_mismatch, unsupported_version, uncaught, build_wake_event,
}
use agent_wake.Delivery.Health.{record_unknown_principal}
use agent_wake.Router.State.{Router}
use agent_wake.Router.Send.{Await}
use agent_wake.Router.Deliver.{deliver}

abbrev error : ℕ → String → Response
error status text = record { status = status; body = field "error" (str text) end }

abbrev pub rate_limited : Response
rate_limited = error 429 "rate limit exceeded"

abbrev pub not_accepted : Response
not_accepted = error 403 "unknown source or invalid signature"

abbrev pub internal_error : Response
internal_error = error 500 "internal error"

-- `request.remote or "unknown"`
unfoldable pub client_address : Request → String
client_address r = elim r.remote [ none ↦ "unknown" | some a ↦ if a == "" then "unknown" else a ]

-- `config.get("sources", {}).get(source)`, if that is truthy
unfoldable pub source_config : Fields → String → Option Fields
source_config config source = elim (as_obj (get source (table "sources" config))) [
  | none ↦ none
  | some end ↦ none
  | some (field k v d) ↦ some (field k v d)
]

-- none when the secrets cannot be resolved
unfoldable pub verified : World → Request → Fields → Option Bool
verified w r source_cfg = elim (w.secrets source_cfg) [
  | resolved ss ↦ some (verify_signature_any w.hmac r.raw_body ss r.signature)
  | unresolved ↦ none
  | inline s ↦ some (verify_signature w.hmac r.raw_body s r.signature)
]

-- none is the TypeError of a `meta` that is no dictionary
unfoldable pub stamp : Option String → Fields → Option Fields
stamp none ev = some ev
stamp (some identity) ev =
    if identity == ""
    then some ev
    else elim (as_obj (get "meta" (set_default "meta" (obj end) ev))) [
      | none ↦ none
      | some meta ↦ some (put "meta" (obj (put "trigger_identity" (str identity) meta)) ev)
    ]

-- `Dedupe.check` with either backing, on an event id that is a text
unfoldable pub dedupe_check : World → String → String → Endpoint → Endpoint × Bool
dedupe_check w event_id source e = elim e.router.store [
  | none ↦ let (window, seen) = check event_id e.window in (record e { window = window }, seen)
  | some st ↦
      let (st', seen) =
        check_and_record_event w.letter_ids w.check_now w.sweep w.at event_id source st in
      (record e { router = record e.router { store = some st' } }, seen)
]

-- `meta.get("target")` as a text, if it is truthy and a human delivery is there
unfoldable pub target_principal : World → Fields → Option String
target_principal w ev = elim (as_obj (get "meta" ev)) [
  | none ↦ none
  | some meta ↦
      if w.has_delivery
      then (if truthy (get "target" meta) then some (text_at "target" meta) else none)
      else none
]

-- `HumanDelivery.resolve_principal` finds a channel table
unfoldable pub is_known_principal : Fields → String → Bool
is_known_principal config principal_id =
    elim (as_obj (get principal_id (table "delivery" config))) [ none ↦ false | some _ ↦ true ]

unfoldable pub is_authorized : Fields → String → String → Bool
is_authorized config source principal_id = elim (out_of_band_principals config source) [
  | none ↦ false
  | some allowed ↦ contains allowed principal_id
]

-- the `delivery` entry of a response whose human delivery was started
unfoldable pub with_delivery : Option String → Fields → Fields
with_delivery none body = body
with_delivery (some p) body =
    put "delivery" (obj (field "status" (str "dispatched") (field "principal_id" (str p) end))) body

abbrev status_body : String → String → Fields
status_body status event_id = field "status" (str status) (field "event_id" (str event_id) end)

-- the answer to the router's status
unfoldable pub answer : String → String → Option String → Response
unfolding with_delivery
answer result event_id dispatched =
    if result == "destination_not_routed" || result == "principal_not_routed"
    then record {
      status = 403;
      body = with_delivery dispatched (
          field "error" (str "sender not authorized for the addressed destination")
            (field "reason" (str result) (field "event_id" (str event_id) end)));
    }
    else if result == "no_subscriber" || result == "queued_next_session"
    then record { status = 202; body = with_delivery dispatched (status_body result event_id) }
    else record { status = 202; body = with_delivery dispatched (status_body "queued" event_id) }

unfoldable pub hand_over : World → Fields → Option String → Endpoint → Endpoint × Response
unfolding answer
hand_over w ev dispatched e =
    let (rt, result) = deliver w.sends w.ack_ids w.deliver_now ev e.router in
    (record e { router = rt }, answer result (text_at "event_id" ev) dispatched)

-- the human delivery, and then the router
unfoldable pub dispatch : World → Request → Fields → Endpoint → Endpoint × Response
unfolding hand_over
dispatch w r ev e = elim (target_principal w ev) [
  | none ↦ hand_over w ev none e
  | some p ↦
      if not (is_known_principal e.config p)
      then (
        record e { delivery_health = record_unknown_principal p e.delivery_health },
        record {
          status = 422;
          body =
              field "error" (str "unknown principal")
                (field "principal_id" (str p) (field "event_id" (str (text_at "event_id" ev)) end));
        },
      )
      else if not (is_authorized e.config r.source p)
      then (
        e,
        record {
          status = 403;
          body = field "error" (str "source not authorized to deliver to principal") (
              field "source" (str r.source) (
                field "principal_id" (str p) (field "event_id" (str (text_at "event_id" ev)) end)));
        },
      )
      else hand_over w ev (some p) (record e { delivery_tasks = e.delivery_tasks ++ ev ∷ [] })
]

-- a stamped event: the replay check, and then its dispatch
unfoldable pub admit : World → Request → Fields → Endpoint → Endpoint × Response
unfolding dedupe_check dispatch
admit w r ev e =
    let (e', seen) = dedupe_check w (text_at "event_id" ev) r.source e in
    let rest = dispatch w r ev e' in
    if seen
    then (e', record { status = 202; body = status_body "duplicate" (text_at "event_id" ev) })
    else rest

unfoldable pub accept_event : World → Request → Built → Endpoint → Endpoint × Response
unfolding stamp admit
accept_event w r source_mismatch e = (e, not_accepted)
accept_event w r uncaught e = (e, internal_error)
accept_event w r unsupported_version e = (e, error 400 "unsupported wake event version")
accept_event w r (event ev) e =
    elim (stamp (trigger_identity_for e.config r.source r.identity) ev) [
      | none ↦ (e, internal_error)
      | some stamped ↦ admit w r stamped e
    ]

-- the rest, once the signature is verified
unfoldable pub authenticated : World → Request → Fields → Endpoint → Endpoint × Response
unfolding accept_event
authenticated w r source_cfg e =
    let (limiter, allowed, lack) = allow w.source_now r.source e.limiter in
    let e' = record e { limiter = limiter } in
    if not allowed
    then (e', rate_limited)
    else elim (check_trigger_identity source_cfg r.identity) [
      | some code ↦ (e', not_accepted)
      | none ↦ accept_event w r (build_wake_event r.payload r.content r.source r.event_id w.ulid) e'
    ]

-- the state once the secrets are there; only a resolver is awaited
unfoldable pub after_secrets : World → Fields → Endpoint → Endpoint
after_secrets w source_cfg e = elim (w.secrets source_cfg) [ inline s ↦ e | _ ↦ w.meanwhile e ]

unfoldable pub from_source : World → Request → Option Fields → Endpoint → Endpoint × Response
unfolding verified authenticated after_secrets
from_source w r none e = (e, not_accepted)
from_source w r (some source_cfg) e = elim (verified w r source_cfg) [
  | none ↦ (after_secrets w source_cfg e, internal_error)
  | some false ↦ (after_secrets w source_cfg e, not_accepted)
  | some true ↦ authenticated w r source_cfg (after_secrets w source_cfg e)
]

-- the state after the limit of the peer
unfoldable pub after_peer : World → Request → Endpoint → Endpoint
after_peer w r e = record e { limiter = (allow w.peer_now (client_address r) e.limiter).0 }

unfoldable pub post_root : World → Request → Endpoint → Endpoint × Response
unfolding after_peer from_source
post_root w r e =
    if not (allow w.peer_now (client_address r) e.limiter).1
    then (after_peer w r e, rate_limited)
    else from_source w r (source_config e.config r.source) (after_peer w r e)
