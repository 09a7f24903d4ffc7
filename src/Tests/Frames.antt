-- ===== src/Tests/Frames.antt =====
-- Frames of the wire protocol.
use agent_wake.Prelude.{◌≡◌, refl, not, false, none, some, []}
use agent_wake.Json.{Fields, str, obj, end, field, truthy, as_obj, get, as_str, repr}
use agent_wake.Addressing.Tables.{sender}
use agent_wake.Outbox.{
  Reply, Outbox, response, ReplyWorld, ReplyResult, callback_url, deliver_reply,
}
use agent_wake.Outbox.Callback.{validate_callback_url}
use agent_wake.Proto.{validate_frame, guard}
use agent_wake.Proto.Built.{reply_result_frame, url_refused, reply_result_verdict}
use agent_wake.Socket.Frames.{receive, parsed}
use agent_wake.Socket.Frames.Reads.{Faithful, receive-Faithful}

abbrev ack_frame : Fields
ack_frame = field "type" (str "ack") (field "ack_id" (str "a1") end)

receive-Faithful_example : Faithful ack_frame (receive (parsed (obj ack_frame)))
receive-Faithful_example = receive-Faithful ack_frame

abbrev question : Reply
question = record {
  source = "ci";
  reply_id = "r1";
  in_reply_to = "e1";
  content = "done";
  reply_destination = none;
}

-- a callback URL whose scheme is refused
abbrev ftp_outbox : Outbox
ftp_outbox = record {
  config = field "default_callback_url" (str "ftp://example.org") end;
  max_retries = 1;
  backoff_delays = [];
  store = none;
}

abbrev quiet : ReplyWorld
quiet = record {
  rejects = λ h. false;
  answers = λ n. response 200;
  is_cancelled = false;
  meanwhile = λ o. o;
  write_fails = false;
  letter_id = "d7";
  now = 0;
}

abbrev rejection : ReplyResult
rejection = record {
  reply_id = "r1";
  status = "rejected";
  http_status = none;
  error = some "disallowed scheme 'ftp'";
  dead_letter_id = none;
}

reply_result_verdict_example :
    validate_frame (obj (reply_result_frame rejection)) none
    ≡ guard (not (url_refused (λ h. false) question ftp_outbox)) "bad_frame"
unfolding deliver_reply callback_url truthy sender as_obj get as_str repr validate_callback_url
reply_result_verdict_example = reply_result_verdict quiet question ftp_outbox rejection refl
