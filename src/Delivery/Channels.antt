-- ===== src/Delivery/Channels.antt =====
-- The loop of `HumanDelivery.deliver` over the channels of a principal, and the status of its results.
use agent_wake.Prelude.{
  String, Bool, true, ◌&&◌, not, Option, none, some, List, [], ◌∷◌, ◌++◌, ◌==◌, if◌then◌else◌,
  contains, any,
}
use agent_wake.Delivery.Health.{DeliveryHealth, record_success, record_failure}

-- What the `deliver` of a channel does: the status and error of its result, an exception, or the
-- cancellation of the task.
pub data Answer : Type 0 where
  answered : String → Option String → Answer
  raised : String → Answer
  cancelled : Answer

pub record ChannelResult : Type 0 where
  pub channel : String
  pub status : String
  pub error : Option String

-- What the loop over the channels leaves.
pub record Progress : Type 0 where
  pub results : List ChannelResult
  pub any_delivered : Bool
  pub any_failed : Bool
  pub is_cancelled : Bool
  pub progress_health : DeliveryHealth

abbrev result : String → String → Option String → ChannelResult
result channel status error = record { channel = channel; status = status; error = error }

abbrev or_status : Option String → String → String
or_status none status = status
or_status (some e) status = e

-- a status of a channel
unfoldable pub note_result : String → String → String → Option String → Progress → Progress
unfolding record_success record_failure
note_result principal_id kind status error p =
    if status == "delivered"
    then record p {
      results = p.results ++ result kind status error ∷ [];
      any_delivered = true;
      progress_health = record_success kind principal_id p.progress_health;
    }
    else record p {
      results = p.results ++ result kind status error ∷ [];
      any_failed = true;
      progress_health = record_failure kind principal_id (or_status error status) p.progress_health;
    }

unfoldable pub note_answer : String → String → Answer → Progress → Progress
unfolding note_result
note_answer principal_id kind (answered status error) p =
    note_result principal_id kind status error p
note_answer principal_id kind (raised msg) p = note_result principal_id kind "failed" (some msg) p
note_answer principal_id kind cancelled p = record p { is_cancelled = true }

module _ (answers : String → Answer) (adapters skip : List String) (principal_id : String) where
  -- one round of the loop
  unfoldable pub try_channel : String → Progress → Progress
  unfolding note_answer
  try_channel kind p =
      if contains skip kind
      then record p { results = p.results ++ result kind "skipped" none ∷ [] }
      else if contains adapters kind
      then note_answer principal_id kind (answers kind) p
      else note_result principal_id kind "failed" (some "no adapter") p

  unfoldable pub try_channels : List String → Progress → Progress
  unfolding try_channel
  try_channels [] p = p
  try_channels (kind ∷ kinds) p =
      let p' = try_channel kind p in
      let rest = try_channels kinds p' in if p'.is_cancelled then p' else rest

-- `attempted` is not empty
unfoldable pub has_attempted : List ChannelResult → Bool
has_attempted = any (λ r. not (r.status == "skipped"))

unfoldable pub overall_status : Progress → String
unfolding has_attempted
overall_status p =
    if not (has_attempted p.results)
    then "delivered"
    else if p.any_delivered && not p.any_failed
    then "delivered"
    else if p.any_delivered && p.any_failed
    then "partial"
    else "failed"
