-- ===== src/Delivery.antt =====
-- daemon/src/agent_waked/delivery.py: the human delivery of an event over the channels of a principal,
-- its health record, and the dead letter of an alert that did not land everywhere.
pub mod Health
pub mod Channels
pub mod Landed
pub mod Accounted
use Prim.Native.String.{◌++◌ as text_append}
use agent_wake.Prelude.{
  ℕ, suc, ◌+◌, String, Bool, true, false, ◌&&◌, ◌||◌, not, Option, none, some, List, [], ◌∷◌, ◌++◌,
  ◌==◌, if◌then◌else◌, contains, map, keep, any,
}
use agent_wake.Json.{
  Json, Items, Fields, str, arr, obj, nil, cons, end, field, get, truthy, as_obj, entries, py_str,
  repr, text_at,
}
use agent_wake.Addressing.Legacy.{table}
use agent_wake.Delivery.Channels.{
  Answer, ChannelResult, Progress, note_result, note_answer, try_channel, try_channels,
  has_attempted, overall_status, answered, raised, cancelled,
}
use agent_wake.Delivery.Health.{
  DeliveryHealth, record_success, record_failure, record_unknown_principal, record_lost_alert,
}
use agent_wake.Store.State.{WakeStore}
use agent_wake.Store.DeadLetters.{insert_dead_letter}

-- `adapters` are the kinds of `self._channels`
pub record HumanDelivery : Type 0 where
  pub config : Fields
  pub adapters : List String
  pub health : DeliveryHealth
  pub store : Option WakeStore

abbrev strings : List String → Items
strings [] = nil
strings (s ∷ ss) = cons (str s) (strings ss)

-- `_channels_with(results, "delivered") + list(skip)`
unfoldable pub landed : List String → Progress → List String
landed skip p = map (λ r. r.channel) (keep (λ r. r.status == "delivered") p.results) ++ skip

unfoldable pub alert_payload : Fields → String → List String → Fields
alert_payload event principal_id delivered_channels = field "event" (obj event) (
    field "principal_id" (str principal_id)
      (field "delivered_channels" (arr (strings delivered_channels)) end))

-- `_dead_letter`; `write_fails` tells whether the store raises, which is counted as a lost alert
unfoldable pub delivery_letter :
    Bool → String → ℕ → Fields → String → String → List String → HumanDelivery → HumanDelivery
unfolding record_lost_alert alert_payload
delivery_letter write_fails dl_id now event principal_id error delivered_channels d = elim d.store [
  | none ↦ d
  | some st ↦
      if write_fails
      then record d {
        health =
            record_lost_alert
              (text_append (text_at "source" event) (text_append "/" (text_at "event_id" event)))
              d.health;
      }
      else record d {
        store = some (
            insert_dead_letter dl_id now "human_delivery" (text_at "source" event)
              (text_at "event_id" event) (alert_payload event principal_id delivered_channels)
              (some error) 1 st);
      }
]

-- the result: the status for the principal, with the results, or the re-raised cancellation
pub data Ended : Type 0 where
  ended : String → Option String → List ChannelResult → Ended
  cancelled_error : Ended

abbrev channel_list : List String → String
channel_list names = repr (arr (strings names))

abbrev failed_channels : Progress → List String
failed_channels p =
    map (λ r. r.channel)
      (keep (λ r. not (r.status == "skipped") && not (r.status == "delivered")) p.results)

unfoldable pub cancel_error : List String → Progress → String
cancel_error skip p =
    text_append "human delivery cancelled mid-flight (daemon shutdown); delivered channels="
      (channel_list (landed skip p))

unfoldable pub failure_error : Progress → String
failure_error p = text_append "human delivery " (
    text_append (overall_status p)
      (text_append ": failed channels=" (channel_list (failed_channels p))))

-- What a delivery reads from its surroundings.
pub record DeliveryWorld : Type 0 where
  pub answers : String → Answer
  pub write_fails : Bool
  pub dead_letter_id : String
  pub now : ℕ

abbrev pub start : DeliveryHealth → Progress
start h = record {
  results = [];
  any_delivered = false;
  any_failed = false;
  is_cancelled = false;
  progress_health = h;
}

-- the progress of the loop over the channels of a principal
unfoldable pub progress :
    DeliveryWorld → List String → String → List String → HumanDelivery → Progress
unfolding try_channels
progress w skip principal_id kinds d =
    try_channels w.answers d.adapters skip principal_id kinds (start d.health)

-- after the loop, with what it leaves
unfoldable pub finish :
    DeliveryWorld → Fields → List String → String → Progress → HumanDelivery → HumanDelivery × Ended
unfolding overall_status landed delivery_letter
finish w event skip principal_id p d =
    let d' = record d { health = p.progress_health } in
    if p.is_cancelled
    then (
      delivery_letter w.write_fails w.dead_letter_id w.now event principal_id (cancel_error skip p)
          (landed skip p) d',
      cancelled_error,
    )
    else if overall_status p == "delivered"
    then (d', ended (overall_status p) (some principal_id) p.results)
    else (
      delivery_letter w.write_fails w.dead_letter_id w.now event principal_id (failure_error p)
          (landed skip p) d',
      ended (overall_status p) (some principal_id) p.results,
    )

-- `resolve_principal`
unfoldable pub resolve_principal : HumanDelivery → String → Option Fields
resolve_principal d principal_id = as_obj (get principal_id (table "delivery" d.config))

unfoldable pub deliver_to_principal :
    DeliveryWorld → Fields → List String → String → HumanDelivery → HumanDelivery × Ended
unfolding progress finish
deliver_to_principal w event skip principal_id d = elim (resolve_principal d principal_id) [
  | none ↦ (
    record d { health = record_unknown_principal principal_id d.health },
    ended "unknown_principal" (some principal_id) [],
  )
  | some channels ↦
      let kinds = map (λ e. e.0) (entries channels) in
      elim kinds [
        | [] ↦ (
          delivery_letter w.write_fails w.dead_letter_id w.now event principal_id
              "principal has no delivery channels configured" [] d,
          ended "no_channels" (some principal_id) [],
        )
        | k ∷ ks ↦ finish w event skip principal_id (progress w skip principal_id (k ∷ ks) d) d
      ]
]

-- `deliver`: `none` for a missing or falsy target
unfoldable pub target_of : Fields → Option String
target_of event = elim (as_obj (get "meta" event)) [
  | none ↦ none
  | some meta ↦ if truthy (get "target" meta) then some (text_at "target" meta) else none
]

unfoldable pub deliver_alert :
    DeliveryWorld → Fields → List String → HumanDelivery → HumanDelivery × Ended
unfolding deliver_to_principal target_of
deliver_alert w event skip d = elim (target_of event) [
  | none ↦ (d, ended "no_target" none [])
  | some principal_id ↦ deliver_to_principal w event skip principal_id d
]
