-- ===== src/Socket/Ghost.antt =====
-- A connection whose hello_ack cannot be written.
use agent_wake.Prelude.{
  ℕ, ◌+◌, String, ◌≡◌, refl, ap, ◌∙◌, Bool, false, List, [], ◌∷◌, leb, length, length-append,
  length-map,
}
use agent_wake.Addressing.Tables.{destination_table}
use agent_wake.Router.Subscribe.{destinations_for_hello}
use agent_wake.Socket.{
  SocketServer, Hello, ack_failed, max_connections, over_cap, register, close_writer,
  after_handshake, handshake, connect, heartbeat,
}

unfoldable pub heartbeats : List (String → Bool) → SocketServer → SocketServer
heartbeats [] s = s
heartbeats (pings ∷ rounds) s = heartbeats rounds (heartbeat pings s)

connections-heartbeats :
    (rounds : List (String → Bool)) (s : SocketServer)
    → length (heartbeats rounds s).connections ≡ length s.connections
unfolding heartbeats heartbeat
connections-heartbeats [] s = refl
connections-heartbeats (pings ∷ rounds) s =
    connections-heartbeats rounds (heartbeat pings s) ∙ length-map _ s.connections

handshake-ack_failed :
    (now : ℕ) (sid : String) (hello : Hello) (s : SocketServer)
    → leb max_connections (length s.connections) ≡ false
    → over_cap
        (destination_table s.router.config)
        s.router
        (destinations_for_hello hello.adapter hello.sources hello.claimed s.router)
      ≡ []
    → handshake false now sid hello s ≡ (
      register now sid hello
          (destinations_for_hello hello.adapter hello.sources hello.claimed s.router)
          s,
      ack_failed,
    )
unfolding handshake
handshake-ack_failed now sid hello s free fits = rw (free, fits, handshake) refl

connections-register :
    (now : ℕ) (sid : String) (hello : Hello) (ds : List String) (s : SocketServer)
    → length (close_writer sid (register now sid hello ds s)).connections ≡ length s.connections + 1
unfolding register close_writer
connections-register now sid hello ds s = length-map _ _ ∙ length-append s.connections _

-- When the hello_ack of an admitted connection cannot be written, the handshake fails, but the
-- connection keeps its slot through any rounds of the heartbeat, and its session stays subscribed in
-- the router.
pub failed_hello_ack_leaks :
    (now : ℕ) (sid : String) (hello : Hello) (s : SocketServer) (rounds : List (String → Bool))
    → leb max_connections (length s.connections) ≡ false
    → over_cap
        (destination_table s.router.config)
        s.router
        (destinations_for_hello hello.adapter hello.sources hello.claimed s.router)
      ≡ []
    → let (s', h) = connect false now sid hello s in
      (h ≡ ack_failed)
      × (length (heartbeats rounds s').connections ≡ length s.connections + 1)
      × (s'.router
          ≡ (register now sid hello
              (destinations_for_hello hello.adapter hello.sources hello.claimed s.router)
              s).router)
unfolding connect close_writer
failed_hello_ack_leaks now sid hello s rounds free fits =
    let e = ap (after_handshake sid) (handshake-ack_failed now sid hello s free fits) in
    (
      ap (λ r. r.1) e,
      connections-heartbeats rounds _
          ∙ ap (λ r. length r.0.connections) e
          ∙ connections-register now sid hello _ s,
      ap (λ r. r.0.router) e,
    )
