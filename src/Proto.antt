-- ===== src/Proto.antt =====
-- daemon/src/agent_waked/proto.py: what a frame of the wire protocol must hold.
pub mod Built
use agent_wake.Prelude.{
  String, Bool, true, false, not, ◌&&◌, ◌||◌, Option, none, some, List, [], ◌∷◌, ◌==◌,
  if◌then◌else◌, contains,
}
use agent_wake.Json.{
  Json, Items, Fields, null, str, arr, obj, nil, cons, end, get, is_number, as_str, as_obj,
}

-- KNOWN_TYPES
abbrev pub known_types : List String
known_types =
    "hello" ∷ "hello_ack" ∷ "wake" ∷ "ack" ∷ "nack" ∷ "reply" ∷ "reply_result" ∷ "error" ∷ "ping"
    ∷ "pong" ∷ []

-- An error code, or `none` for a sound frame.
abbrev pub Verdict : Type 0
Verdict = Option String

-- `if err: return err`, then the checks that follow
infixl 5 ◌>>◌
abbrev pub ◌>>◌ : Verdict → Verdict → Verdict
none >> rest = rest
some err >> rest = some err

-- `if not b: return err`
abbrev pub guard : Bool → String → Verdict
guard true err = none
guard false err = some err

abbrev pub is_text : Option Json → Bool
is_text (some (str s)) = true
is_text _ = false

abbrev pub is_list : Option Json → Bool
is_list (some (arr xs)) = true
is_list _ = false

abbrev pub is_dict : Option Json → Bool
is_dict (some (obj d)) = true
is_dict _ = false

-- `d.get(k) is None`
abbrev pub is_none : Option Json → Bool
is_none none = true
is_none (some null) = true
is_none _ = false

unfoldable pub require_str : Fields → String → Verdict
require_str frame key = guard (is_text (get key frame)) "bad_frame"

unfoldable pub are_texts : Items → Bool
are_texts nil = true
are_texts (cons x xs) = is_text (some x) && are_texts xs

-- `_is_str_list`
unfoldable pub is_str_list : Option Json → Bool
unfolding are_texts
is_str_list (some (arr xs)) = are_texts xs
is_str_list _ = false

-- `frame.get("filters", {})`
unfoldable pub filters_of : Fields → Option Json
filters_of frame = elim (get "filters" frame) [ none ↦ some (obj end) | some v ↦ some v ]

unfoldable pub sources_of : Fields → Option Json
unfolding filters_of
sources_of frame = elim (as_obj (filters_of frame)) [ none ↦ none | some d ↦ get "sources" d ]

unfoldable pub validate_hello : Fields → Verdict
unfolding require_str sources_of filters_of is_str_list
validate_hello frame =
    let sources = sources_of frame in
    let destinations = get "destinations" frame in
    do
      guard (is_number 1 (get "v" frame)) "version_unsupported"
      require_str frame "adapter"
      require_str frame "instance"
      guard (is_dict (filters_of frame)) "bad_frame"
      guard (is_none sources || is_list sources) "bad_frame"
      guard (is_none destinations || is_str_list destinations) "bad_frame"
      guard (not (is_none sources && is_none destinations)) "bad_frame"

unfoldable pub validate_hello_ack : Fields → Verdict
unfolding require_str is_str_list
validate_hello_ack frame =
    let accepted = get "accepted_destinations" frame in
    do
      guard (is_number 1 (get "v" frame)) "bad_frame"
      require_str frame "session_id"
      guard (is_list (get "accepted_sources" frame)) "bad_frame"
      guard (is_none accepted || is_str_list accepted) "bad_frame"

-- the check of an optional `destination` block
unfoldable pub validate_destination : Option Json → Verdict
validate_destination dest = elim (as_obj dest) [
  | none ↦ guard (is_none dest) "bad_frame"
  | some d ↦ guard (is_text (get "name" d)) "bad_frame"
]

unfoldable pub validate_wake : Fields → Verdict
unfolding require_str validate_destination
validate_wake frame = do
  require_str frame "ack_id"
  guard (is_dict (get "event" frame)) "bad_frame"
  validate_destination (get "destination" frame)

unfoldable pub validate_ack : Fields → Verdict
unfolding require_str
validate_ack frame = require_str frame "ack_id"

unfoldable pub validate_nack : Fields → Verdict
unfolding require_str
validate_nack frame = do require_str frame "ack_id"; require_str frame "reason"

-- the loop over the four fields, then the claimed destination
unfoldable pub validate_reply : Fields → Verdict
unfolding require_str
validate_reply frame =
    let dest = get "destination" frame in
    do
      require_str frame "reply_id"
      require_str frame "source"
      require_str frame "in_reply_to"
      require_str frame "content"
      guard (is_none dest || is_text dest) "bad_frame"

abbrev pub reply_statuses : List String
reply_statuses = "delivered" ∷ "failed" ∷ "no_callback" ∷ []

unfoldable pub is_reply_status : Option Json → Bool
is_reply_status v = elim (as_str v) [ none ↦ false | some s ↦ contains reply_statuses s ]

unfoldable pub validate_reply_result : Fields → Verdict
unfolding require_str is_reply_status
validate_reply_result frame = do
  require_str frame "reply_id"
  guard (is_reply_status (get "status" frame)) "bad_frame"

unfoldable pub validate_error : Fields → Verdict
unfolding require_str
validate_error frame = require_str frame "code"

-- `_VALIDATORS`; the checks of a ping and a pong accept all
unfoldable pub validator : String → Fields → Verdict
unfolding validate_hello validate_hello_ack validate_wake validate_ack validate_nack validate_reply
    validate_reply_result validate_error
validator ftype frame =
    if ftype == "hello"
    then validate_hello frame
    else if ftype == "hello_ack"
    then validate_hello_ack frame
    else if ftype == "wake"
    then validate_wake frame
    else if ftype == "ack"
    then validate_ack frame
    else if ftype == "nack"
    then validate_nack frame
    else if ftype == "reply"
    then validate_reply frame
    else if ftype == "reply_result"
    then validate_reply_result frame
    else if ftype == "error"
    then validate_error frame
    else none

-- `expected_types is not None and ftype not in expected_types`
abbrev is_unexpected : Option (List String) → String → Bool
is_unexpected none ftype = false
is_unexpected (some types) ftype = not (contains types ftype)

unfoldable pub validate_frame : Json → Option (List String) → Verdict
unfolding validator
validate_frame (obj frame) expected = elim (as_str (get "type" frame)) [
  | none ↦ some "bad_frame"
  | some ftype ↦
      if is_unexpected expected ftype
      then (if contains known_types ftype then some "unexpected_type" else none)
      else validator ftype frame
]
validate_frame v expected = some "bad_frame"
