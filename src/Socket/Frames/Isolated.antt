-- ===== src/Socket/Frames/Isolated.antt =====
-- A line of one connection leaves the others alone.
use agent_wake.Prelude.{
  String, ◌≡◌, refl, ap, inl, inr, Bool, true, false, not, List, [], ◌∷◌, arith, ◌==◌, map, keep,
  Bool-cases, Option-cases,
}
use agent_wake.Outbox.{Reply}
use agent_wake.Socket.{
  ClientConnection, SocketServer, Frame, reply, ack, nack, pong, take_frame, disconnect,
  authorize_reply,
}
use agent_wake.Socket.Frames.{
  Line, Received, ended, missing_field, handled, ignored, receive, serve_reply, serve, serve_line,
}

-- the connections of all sessions but one
abbrev pub others : String → SocketServer → List ClientConnection
others sid s = keep (λ k. not (k.session_id == sid)) s.connections

keep-keep {ℓ} : {A : Type ℓ} (p : A → Bool) (xs : List A) → keep p (keep p xs) ≡ keep p xs
unfolding keep
keep-keep p [] = refl
keep-keep p (x ∷ xs) = ground (arith, keep-keep p xs)

-- a change of the entries that a filter drops is not seen behind it
keep-map :
    (sid : String) (f : ClientConnection → ClientConnection)
    → ((k : ClientConnection) → (k.session_id == sid) ≡ false → f k ≡ k)
    → ((k : ClientConnection) → (k.session_id == sid) ≡ true → ((f k).session_id == sid) ≡ true)
    → (ks : List ClientConnection)
    → keep (λ k. not (k.session_id == sid)) (map f ks) ≡ keep (λ k. not (k.session_id == sid)) ks
unfolding keep
keep-map sid f same own [] = refl
keep-map sid f same own (k ∷ ks) = elim (Bool-cases (k.session_id == sid)) [
  | inl y ↦ rw (y, own k y) (keep-map sid f same own ks)
  | inr n ↦ rw (same k n, n) (ap (λ l. k ∷ l) (keep-map sid f same own ks))
]

others-take_frame :
    (c : ClientConnection) (f : Frame) (s : SocketServer)
    → others c.session_id (take_frame c f s) ≡ others c.session_id s
unfolding take_frame
others-take_frame c (reply r) s = refl
others-take_frame c (ack i) s = refl
others-take_frame c (nack i) s = refl
others-take_frame c pong s =
    keep-map c.session_id _ (λ k n. rw n refl) (λ k y. rw y y) s.connections

server-serve_reply :
    (c : ClientConnection) (r : Reply) (s : SocketServer) → (serve_reply c r s).0 ≡ s
unfolding serve_reply
server-serve_reply c r s = elim (Option-cases (authorize_reply c r)) [
  | inl refusal ↦ rw (refusal, serve_reply) refl
  | inr (a, is) ↦ rw (is, serve_reply) refl
]

others-serve :
    (c : ClientConnection) (r : Received) (s : SocketServer)
    → others c.session_id (serve c r s).0 ≡ others c.session_id s
unfolding serve disconnect
others-serve c (ended err) s = keep-keep _ s.connections
others-serve c missing_field s = refl
others-serve c ignored s = refl
others-serve c (handled (ack i)) s = others-take_frame c (ack i) s
others-serve c (handled (nack i)) s = others-take_frame c (nack i) s
others-serve c (handled pong) s = others-take_frame c pong s
others-serve c (handled (reply r)) s = ap (others c.session_id) (server-serve_reply c r s)

-- Whatever a connection sends, well formed or not, the connections of the other sessions are as they were.
pub others-serve_line :
    (c : ClientConnection) (line : Line) (s : SocketServer)
    → keep (λ k. not (k.session_id == c.session_id)) (serve_line c line s).0.connections
      ≡ keep (λ k. not (k.session_id == c.session_id)) s.connections
unfolding serve_line
others-serve_line c line s = others-serve c (receive line) s
