-- ===== src/Tests/Socket.antt =====
-- The socket server at one connection.
use agent_wake.Prelude.{
  ℕ, ◌+◌, ◌≤◌, ◌≡◌, ◌≢◌, refl, Bool, true, false, none, List, [], ◌∷◌, arith, length, any, keep,
  find, contains,
}
use agent_wake.Json.{Fields, end, field, obj, int, pos, as_obj, get, as_str}
use agent_wake.Addressing.Tables.{destination_table, named, accepts_adapter}
use agent_wake.Router.State.{init}
use agent_wake.Router.Subscribe.{destinations_for_hello, destination_load}
use agent_wake.Socket.{
  ClientConnection, SocketServer, Hello, ack_failed, over_cap, register, handshake, connect,
}
use agent_wake.Socket.Reaped.{silent, Busy, fresh, reaped_within_six}
use agent_wake.Socket.Caps.{WithinCaps, handshake-WithinCaps}
use agent_wake.Socket.Ghost.{heartbeats, failed_hello_ack_leaks}

abbrev connection : ClientConnection
connection = record {
  session_id = "s1";
  served = "desk" ∷ [];
  pending_ping = true;
  busy_missed_pongs = 0;
  is_open = true;
}

abbrev rounds : List (ℕ × Bool)
rounds = (1, true) ∷ (1, true) ∷ (2, true) ∷ (1, true) ∷ (0, true) ∷ (1, true) ∷ []

reaped_within_six_example :
    (6 ≤ 6 → silent rounds connection ≡ none)
    × (Busy rounds → 6 ≤ 5 → silent rounds (fresh connection) ≢ none)
reaped_within_six_example = reaped_within_six rounds connection

abbrev capped_config : Fields
capped_config =
    field "destinations" (obj (field "desk" (obj (field "max_connections" (int (pos 1)) end)) end))
      end

abbrev server : SocketServer
server = record { router = init capped_config none; connections = connection ∷ [] }

abbrev hello : Hello
hello = record { adapter = "claude"; instance_name = "i"; sources = "desk" ∷ []; claimed = none }

handshake-WithinCaps_example : WithinCaps (handshake true 4 "s2" hello server).0.router
unfolding init any keep
handshake-WithinCaps_example =
    handshake-WithinCaps true 4 "s2" hello server refl
      (λ name dest cap is capped. unfold destination_load in omega arith)

failed_hello_ack_leaks_example :
    let (s, h) = connect false 4 "s2" hello server in
    (h ≡ ack_failed)
    × (length (heartbeats ((λ sid. true) ∷ (λ sid. true) ∷ []) s).connections ≡ 1 + 1)
    × (s.router
        ≡ (register 4 "s2" hello
            (destinations_for_hello hello.adapter hello.sources hello.claimed server.router)
            server).router)
unfolding over_cap destinations_for_hello named find destination_table as_obj get init contains
    destination_load keep accepts_adapter as_str
failed_hello_ack_leaks_example =
    failed_hello_ack_leaks 4 "s2" hello server ((λ sid. true) ∷ (λ sid. true) ∷ []) refl refl
