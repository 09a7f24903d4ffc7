-- ===== src/Socket.antt =====
-- daemon/src/agent_waked/socket_server.py: the admission of a connection, its heartbeat, and the
-- dispatch of its frames. Frames are those that the protocol's checks accept.
pub mod Caps
pub mod Reaped
pub mod Ghost
pub mod Frames
use agent_wake.Prelude.{
  ℕ, ◌+◌, String, Bool, true, false, not, ◌&&◌, Option, none, some, List, [], ◌∷◌, ◌++◌, ◌==◌,
  if◌then◌else◌, leb, ltb, eqb, length, keep, map, contains,
}
use agent_wake.Addressing.Tables.{Destination, destination_table, named}
use agent_wake.Router.State.{Router}
use agent_wake.Router.Subscribe.{
  destinations_for_hello, destination_load, subscribe, unsubscribe, note_subscribed, in_flight_for,
}
use agent_wake.Router.Acks.{resolve_ack}
use agent_wake.Outbox.{Outbox, Reply}

-- MAX_CONNECTIONS and MAX_BUSY_MISSED_PONGS
abbrev pub max_connections : ℕ
max_connections = 16

abbrev pub max_busy_missed_pongs : ℕ
max_busy_missed_pongs = 4

-- `ClientConnection`; `is_open` is false once its writer is closed
pub record ClientConnection : Type 0 where
  pub session_id : String
  pub served : List String
  pub pending_ping : Bool
  pub busy_missed_pongs : ℕ
  pub is_open : Bool

pub record SocketServer : Type 0 where
  pub router : Router
  pub connections : List ClientConnection

-- A hello frame.
pub record Hello : Type 0 where
  pub adapter : String
  pub instance_name : String
  pub sources : List String
  pub claimed : Option (List String)

-- How a handshake ends. The last is an exception at the write of the hello_ack.
pub data Handshake : Type 0 where
  subscribed : List String → Handshake
  connection_limit : Handshake
  destination_cap : List (String × ℕ) → Handshake
  ack_failed : Handshake

-- `_destinations_over_cap`
-- a destination of the loop, before those found in the rest
unfoldable pub over_name :
    String → Option Destination → Router → List (String × ℕ) → List (String × ℕ)
over_name name none rt rest = rest
over_name name (some dest) rt rest = elim dest.max_connections [
  | none ↦ rest
  | some cap ↦ if leb cap (destination_load name none rt) then (name, cap) ∷ rest else rest
]

unfoldable pub over_cap : List Destination → Router → List String → List (String × ℕ)
unfolding over_name
over_cap table rt [] = []
over_cap table rt (name ∷ names) = over_name name (named name table) rt (over_cap table rt names)

-- the entry of a new connection, which has a new session id
unfoldable pub register : ℕ → String → Hello → List String → SocketServer → SocketServer
register now session_id hello destinations s = record s {
  connections =
      s.connections
      ++ record {
        session_id = session_id;
        served = destinations;
        pending_ping = false;
        busy_missed_pongs = 0;
        is_open = true;
      }
        ∷ [];
  router = note_subscribed destinations (
      subscribe now session_id hello.adapter hello.instance_name hello.sources (some destinations)
        s.router);
}

-- `_handshake` after the hello is read and checked; `ack_written` tells whether the hello_ack is sent
unfoldable pub handshake : Bool → ℕ → String → Hello → SocketServer → SocketServer × Handshake
unfolding register
handshake ack_written now session_id hello s =
    let destinations = destinations_for_hello hello.adapter hello.sources hello.claimed s.router in
    if leb max_connections (length s.connections)
    then (s, connection_limit)
    else elim (over_cap (destination_table s.router.config) s.router destinations) [
      | o ∷ over ↦ (s, destination_cap (o ∷ over))
      | [] ↦ (
        register now session_id hello destinations s,
        (if ack_written then subscribed destinations else ack_failed),
      )
    ]

-- `_handle_connection` when the handshake raises: the writer is closed, and nothing else is undone
unfoldable pub close_writer : String → SocketServer → SocketServer
close_writer session_id s = record s {
  connections =
      map (λ c. if c.session_id == session_id then record c { is_open = false } else c)
        s.connections;
}

abbrev pub after_handshake : String → SocketServer × Handshake → SocketServer × Handshake
after_handshake session_id (s, ack_failed) = (close_writer session_id s, ack_failed)
after_handshake session_id (s, h) = (s, h)

unfoldable pub connect : Bool → ℕ → String → Hello → SocketServer → SocketServer × Handshake
unfolding handshake close_writer
connect ack_written now session_id hello s =
    after_handshake session_id (handshake ack_written now session_id hello s)

-- the `finally` of a connection whose frame loop ends
unfoldable pub disconnect : String → SocketServer → SocketServer
disconnect session_id s = record s {
  router = unsubscribe session_id s.router;
  connections = keep (λ c. not (c.session_id == session_id)) s.connections;
}

-- One connection in a round of the heartbeat: the connection, and whether it is stale. A ping to a
-- closed writer fails, and so may any other.
unfoldable pub beat : ℕ → Bool → ClientConnection → ClientConnection × Bool
beat in_flight ping_written c =
    if c.pending_ping
    then (if ltb 0 in_flight && ltb c.busy_missed_pongs max_busy_missed_pongs
        then (record c { busy_missed_pongs = c.busy_missed_pongs + 1 }, false)
        else (c, true))
    else (if c.is_open && ping_written
        then (record c { pending_ping = true }, false)
        else (c, true))

-- a stale connection is closed, which ends its frame loop if that runs
unfoldable pub close_stale : ClientConnection × Bool → ClientConnection
close_stale (c, true) = record c { is_open = false }
close_stale (c, false) = c

-- one round over all connections, `pings` telling which pings are written
unfoldable pub heartbeat : (String → Bool) → SocketServer → SocketServer
unfolding beat close_stale
heartbeat pings s = record s {
  connections =
      map (λ c. close_stale (beat (in_flight_for c.session_id s.router) (pings c.session_id) c))
        s.connections;
}

-- A frame of the loop.
pub data Frame : Type 0 where
  reply : Reply → Frame
  ack : String → Frame
  nack : String → Frame
  pong : Frame

-- `_handle_reply` hands over only a reply that claims no destination, or one that the connection serves;
-- `none` is the error unauthorized_destination
unfoldable pub authorize_reply : ClientConnection → Reply → Option Reply
authorize_reply c r = elim r.reply_destination [
  | none ↦ some r
  | some d ↦ if contains c.served d then some r else none
]

-- an ack, a nack or a pong
unfoldable pub take_frame : ClientConnection → Frame → SocketServer → SocketServer
take_frame c (reply r) s = s
take_frame c (ack ack_id) s = record s { router = resolve_ack ack_id "ack" s.router }
take_frame c (nack ack_id) s = record s { router = resolve_ack ack_id "nack" s.router }
take_frame c pong s = record s {
  connections =
      map
        (λ k.
          if k.session_id == c.session_id
          then record k { pending_ping = false; busy_missed_pongs = 0 }
          else k)
        s.connections;
}
