-- ===== src/Proto/Built.antt =====
-- The frames that the daemon builds, and what the check of proto.py says of them.
use mathlib.Core.Path.{subst}
use agent_wake.Prelude.{
  ℕ, String, ◌≡◌, refl, ap, ◌∙◌, Bool, true, false, not, Option, none, some, List, [], ◌∷◌,
  contains, Option-cases, Bool-cases, inl, inr,
}
use agent_wake.Json.{
  pos, Json, Items, Fields, null, bool, int, str, arr, obj, nil, cons, end, field, get, as_str,
  as_obj, is_number,
}
use agent_wake.Addressing.Tables.{Destination, to_frame}
use agent_wake.Outbox.{
  Outbox, Tried, Reply, ReplyResult, callback_url, conclude, try_all, deliver_reply, ReplyWorld,
  Replied, replied, raises, give_up, letter_raises,
}
use agent_wake.Outbox.Callback.{UrlCheck, allowed, disallowed, unparsable, validate_callback_url}
use agent_wake.Proto.{guard, are_texts, reply_statuses, validate_frame}

abbrev pub texts : List String → Items
texts [] = nil
texts (s ∷ ss) = cons (str s) (texts ss)

unfoldable pub wake_frame : String → Fields → Destination → Fields
unfolding to_frame
wake_frame ack_id event dest = field "type" (str "wake") (
    field "ack_id" (str ack_id)
      (field "destination" (obj (to_frame dest)) (field "event" (obj event) end)))

unfoldable pub hello_ack_frame : String → List String → List String → Fields
hello_ack_frame session_id sources destinations = field "type" (str "hello_ack") (
    field "v" (int (pos 1)) (
      field "session_id" (str session_id) (
        field "accepted_sources" (arr (texts sources))
          (field "accepted_destinations" (arr (texts destinations)) end))))

unfoldable pub error_frame : String → String → Bool → Fields
error_frame code message fatal =
    field "type" (str "error")
      (field "code" (str code) (field "message" (str message) (field "fatal" (bool fatal) end)))

abbrev pub ping_frame : Fields
ping_frame = field "type" (str "ping") end

abbrev number_or_null : Option ℕ → Json
number_or_null none = null
number_or_null (some n) = int (pos n)

abbrev text_or_null : Option String → Json
text_or_null none = null
text_or_null (some s) = str s

abbrev given_id : Option String → Fields
given_id none = end
given_id (some id) = field "dead_letter_id" (str id) end

-- the result of the outbox with the type of the frame in front
unfoldable pub reply_result_frame : ReplyResult → Fields
reply_result_frame r = field "type" (str "reply_result") (
    field "reply_id" (str r.reply_id) (
      field "status" (str r.status) (
        field "http_status" (number_or_null r.http_status)
          (field "error" (text_or_null r.error) (given_id r.dead_letter_id)))))

are_texts-texts : (ss : List String) → are_texts (texts ss) ≡ true
unfolding are_texts
are_texts-texts [] = refl
are_texts-texts (s ∷ ss) = are_texts-texts ss

-- Every wake, hello_ack, error and ping that the daemon builds passes the check of its own protocol,
-- whatever the texts, the event and the destination in it.
pub built_frames_pass :
    (ack_id session_id code message : String) (event : Fields) (dest : Destination)
    (sources destinations : List String) (fatal : Bool)
    → (validate_frame (obj (wake_frame ack_id event dest)) none ≡ none)
      × (validate_frame (obj (hello_ack_frame session_id sources destinations)) none ≡ none)
      × (validate_frame (obj (error_frame code message fatal)) none ≡ none)
      × (validate_frame (obj ping_frame) none ≡ none)
unfolding validate_frame wake_frame hello_ack_frame error_frame get as_str as_obj to_frame is_number
built_frames_pass ack_id session_id code message event dest sources destinations fatal =
    (refl, rw (are_texts-texts destinations) refl, refl, refl)

passes : ReplyResult → Bool
passes r = contains reply_statuses r.status

verdict_of_result :
    (r : ReplyResult)
    → validate_frame (obj (reply_result_frame r)) none ≡ guard (passes r) "bad_frame"
unfolding validate_frame reply_result_frame get as_str passes
verdict_of_result r = refl

-- the source has a callback URL, and it is refused
pub url_refused : (String → Bool) → Reply → Outbox → Bool
url_refused rejects r o = elim (callback_url o.config r.source) [
  | none ↦ false
  | some url ↦ elim (validate_callback_url rejects url) [
    | allowed ↦ false
    | disallowed err ↦ true
    | unparsable ↦ false
  ]
]

-- the result, if there is one, passes as it should
abbrev Verdict : Bool → Replied → Type 0
Verdict ok (replied result) = passes result ≡ ok
Verdict ok raises = Unit

Verdict-give_up :
    (w : ReplyWorld) (r : Reply) (status : String) (http : Option ℕ) (error : Option String)
    (attempts : ℕ) (o : Outbox)
    → Verdict (contains reply_statuses status) (give_up w r status http error attempts o).1
unfolding give_up passes
Verdict-give_up w r status http error attempts o = elim (Bool-cases (letter_raises w o)) [
  | inl y ↦ rw y tt
  | inr n ↦ rw n refl
]

Verdict-conclude :
    (w : ReplyWorld) (r : Reply) (t : Tried) (o : Outbox) → Verdict true (conclude w r t o).1
unfolding passes conclude contains
Verdict-conclude w r t o = elim (Option-cases t.delivered) [
  | inl failed ↦
      rw (failed, conclude)
        (Verdict-give_up w r "failed" t.last_http_status t.last_error o.max_retries o)
  | inr (s, delivered) ↦ rw (delivered, conclude) refl
]

Verdict-checked :
    (w : ReplyWorld) (r : Reply) (o : Outbox) (url : String) (c : UrlCheck)
    → callback_url o.config r.source ≡ some url
    → validate_callback_url w.rejects url ≡ c
    → Verdict (not (url_refused w.rejects r o)) (deliver_reply w r o).1
unfolding passes contains url_refused deliver_reply
Verdict-checked w r o url unparsable is e = rw (is, deliver_reply, e) tt
Verdict-checked w r o url (disallowed err) is e =
    let u : url_refused w.rejects r o ≡ true = rw (is, url_refused, e) refl in
    rw u (rw (is, deliver_reply, e) (Verdict-give_up w r "rejected" none (some err) 0 o))
Verdict-checked w r o url allowed is e =
    let u : url_refused w.rejects r o ≡ false = rw (is, url_refused, e) refl in
    rw u (
      rw (is, deliver_reply, e)
        (elim (Bool-cases w.is_cancelled) [
          | inl stopped ↦ rw stopped tt
          | inr going ↦ rw going (Verdict-conclude w r (try_all w.answers o) (w.meanwhile o))
        ]))

Verdict-deliver_reply :
    (w : ReplyWorld) (r : Reply) (o : Outbox)
    → Verdict (not (url_refused w.rejects r o)) (deliver_reply w r o).1
unfolding passes contains url_refused deliver_reply
Verdict-deliver_reply w r o = elim (Option-cases (callback_url o.config r.source)) [
  | inl nowhere ↦
      let u : url_refused w.rejects r o ≡ false = rw (nowhere, url_refused) refl in
      rw u (rw (nowhere, deliver_reply) refl)
  | inr (url, is) ↦ Verdict-checked w r o url (validate_callback_url w.rejects url) is refl
]

-- The frame with the result of a reply, when its delivery has one, passes the check of the daemon's own
-- protocol, unless the callback URL of its source is refused: then its status is "rejected", which the
-- check refuses.
pub reply_result_verdict :
    (w : ReplyWorld) (r : Reply) (o : Outbox) (result : ReplyResult)
    → (deliver_reply w r o).1 ≡ replied result
    → validate_frame (obj (reply_result_frame result)) none
      ≡ guard (not (url_refused w.rejects r o)) "bad_frame"
reply_result_verdict w r o result is =
    let verdict : passes result ≡ not (url_refused w.rejects r o) =
      subst (Verdict (not (url_refused w.rejects r o))) is (Verdict-deliver_reply w r o) in
    verdict_of_result result ∙ ap (λ b. guard b "bad_frame") verdict
