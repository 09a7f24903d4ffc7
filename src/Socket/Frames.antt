-- ===== src/Socket/Frames.antt =====
-- socket_server.py: how a line of a connection is read, checked and handed on.
pub mod Reads
pub mod Isolated
use agent_wake.Prelude.{
  String, Bool, true, false, ◌||◌, Option, none, some, List, [], ◌∷◌, ◌==◌, if◌then◌else◌,
}
use agent_wake.Json.{
  Json, Items, Fields, str, arr, obj, nil, cons, end, get, as_str, as_obj, as_arr, truthy,
}
use agent_wake.Outbox.{Reply}
use agent_wake.Proto.{validate_frame, is_str_list, filters_of, sources_of, are_texts}
use agent_wake.Socket.{
  ClientConnection, SocketServer, Hello, Frame, reply, ack, nack, pong, authorize_reply, take_frame,
  disconnect,
}

-- What `_read_frame` makes of the next line: the exceptions of a closed peer, of a line over the limit, of
-- a text that is no JSON, and of bytes that are no text, or the document.
pub data Line : Type 0 where
  peer_closed : Line
  too_large : Line
  malformed : Line
  undecodable : Line
  parsed : Json → Line

-- What becomes of a line in the frame loop: the loop ends, after an error frame with a code if there is
-- one; an error frame is sent and the loop goes on; a frame is handled; or the line is only logged.
pub data Received : Type 0 where
  ended : Option String → Received
  missing_field : Received
  handled : Frame → Received
  ignored : Received

-- `destination if isinstance(destination, str) else None`
abbrev reply_of : String → String → String → String → Fields → Reply
reply_of source reply_id in_reply_to content frame = record {
  source = source;
  reply_id = reply_id;
  in_reply_to = in_reply_to;
  content = content;
  reply_destination = as_str (get "destination" frame);
}

infixl 5 ◌>>=◌
abbrev ◌>>=◌ {ℓ} : {A : Type ℓ} → Option String → (String → Option A) → Option A
none >>= k = none
some s >>= k = k s

-- the four fields of a reply; `none` if one is not there, or is no text
unfoldable pub read_reply : Fields → Option Reply
read_reply frame = do
  source ← as_str (get "source" frame)
  reply_id ← as_str (get "reply_id" frame)
  in_reply_to ← as_str (get "in_reply_to" frame)
  content ← as_str (get "content" frame)
  some (reply_of source reply_id in_reply_to content frame)

abbrev reply_or_missing : Option Reply → Received
reply_or_missing none = missing_field
reply_or_missing (some r) = handled (reply r)

-- `frame.get("ack_id", "")`, of a text
abbrev text_or_empty : Option String → String
text_or_empty none = ""
text_or_empty (some s) = s

-- the branches of the loop on the type of a sound frame
unfoldable pub sort_frame : String → Fields → Received
unfolding read_reply
sort_frame ftype frame =
    let ack_id = text_or_empty (as_str (get "ack_id" frame)) in
    if ftype == "reply"
    then reply_or_missing (read_reply frame)
    else if ftype == "ack"
    then handled (ack ack_id)
    else if ftype == "nack"
    then handled (nack ack_id)
    else if ftype == "pong"
    then handled pong
    else ignored

abbrev sort_by_type : Option String → Fields → Received
sort_by_type none frame = ignored
sort_by_type (some ftype) frame = sort_frame ftype frame

-- a round of `_frame_loop`; on a document that is no dictionary, `frame.get` raises
unfoldable pub receive : Line → Received
unfolding sort_frame
receive peer_closed = ended none
receive too_large = ended (some "frame_too_large")
receive malformed = ended (some "bad_frame")
receive undecodable = ended none
receive (parsed (obj frame)) = elim (validate_frame (obj frame) none) [
  | some err ↦ ended (some err)
  | none ↦ sort_by_type (as_str (get "type" frame)) frame
]
receive (parsed v) = ended none

-- The state after the line, the code of the error frame that is sent, and the reply for the outbox.
abbrev pub Served : Type 0
Served = SocketServer × Option String × Option Reply

unfoldable pub serve_reply : ClientConnection → Reply → SocketServer → Served
serve_reply c r s = elim (authorize_reply c r) [
  | none ↦ (s, some "unauthorized_destination", none)
  | some allowed ↦ (s, none, some allowed)
]

unfoldable pub serve : ClientConnection → Received → SocketServer → Served
unfolding serve_reply
serve c (ended err) s = (disconnect c.session_id s, err, none)
serve c missing_field s = (s, some "bad_frame", none)
serve c ignored s = (s, none, none)
serve c (handled (reply r)) s = serve_reply c r s
serve c (handled f) s = (take_frame c f s, none, none)

unfoldable pub serve_line : ClientConnection → Line → SocketServer → Served
unfolding receive serve
serve_line c line s = serve c (receive line) s

-- How the first line of a connection is taken: the connection ends, after an error frame with a code if
-- there is one, or a hello is there. The names in `filters.sources` are not checked; a list with
-- something else in it goes on as it is.
pub data Opened : Type 0 where
  refused : Option String → Opened
  greeted : Hello → Opened
  odd_sources : Items → Opened

abbrev names_of : Items → List String
names_of nil = []
names_of (cons (str s) xs) = s ∷ names_of xs
names_of (cons x xs) = names_of xs

-- `frame.get("filters", {}).get("sources", []) or []`
unfoldable pub source_items : Fields → Items
source_items frame = elim (as_arr (sources_of frame)) [ none ↦ nil | some xs ↦ xs ]

-- `frame.get("destinations")`
unfoldable pub claimed_of : Fields → Option (List String)
claimed_of frame = elim (as_arr (get "destinations" frame)) [
  | none ↦ none
  | some xs ↦ some (names_of xs)
]

unfoldable pub hello_of : Fields → Opened
unfolding source_items claimed_of
hello_of frame =
    if are_texts (source_items frame)
    then greeted (record {
      adapter = text_or_empty (as_str (get "adapter" frame));
      instance_name = text_or_empty (as_str (get "instance" frame));
      sources = names_of (source_items frame);
      claimed = claimed_of frame;
    })
    else odd_sources (source_items frame)

-- `_handshake` and the handlers of `_handle_connection`, up to the limit of connections
unfoldable pub open_line : Line → Opened
unfolding hello_of
open_line peer_closed = refused none
open_line too_large = refused (some "frame_too_large")
open_line malformed = refused (some "bad_frame")
open_line undecodable = refused none
open_line (parsed (obj frame)) =
    if elim (as_str (get "type" frame)) [ none ↦ false | some t ↦ t == "hello" ]
    then elim (validate_frame (obj frame) none) [
      | some err ↦ refused (some err)
      | none ↦ hello_of frame
    ]
    else refused (some "unauthenticated")
open_line (parsed v) = refused none
