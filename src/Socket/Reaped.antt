-- ===== src/Socket/Reaped.antt =====
-- How many rounds of the heartbeat a connection without a pong outlives.
use agent_wake.Prelude.{
  ℕ, ◌+◌, ◌≤◌, ◌<◌, ◌≡◌, ◌≢◌, refl, ap, Bool, true, false, ◌&&◌, Option, none, some, List, [], ◌∷◌,
  arith, if◌then◌else◌, length, All, ltb, inl, inr, Bool-cases,
}
use agent_wake.Socket.{ClientConnection, max_busy_missed_pongs, beat}

-- Rounds in which no pong comes: for each the deliveries in flight and whether a ping is written.
-- `none` is a connection that was found stale.
unfoldable pub silent : List (ℕ × Bool) → ClientConnection → Option ClientConnection
silent [] c = some c
silent ((in_flight, written) ∷ rounds) c =
    let (c', stale) = beat in_flight written c in
    let rest = silent rounds c' in if stale then none else rest

abbrev pub Busy : List (ℕ × Bool) → Type 0
Busy rounds = All (λ r. (0 < r.0) × (r.1 ≡ true)) rounds

-- the connection with a ping outstanding
abbrev pinged : ClientConnection → ClientConnection
pinged c = record c { pending_ping = true }

reaped_pinged :
    (rounds : List (ℕ × Bool)) (c : ClientConnection)
    → max_busy_missed_pongs < length rounds + c.busy_missed_pongs
    → 0 < length rounds
    → silent rounds (pinged c) ≡ none
unfolding silent beat
reaped_pinged [] c h k = absurd (omega arith)
reaped_pinged ((n, w) ∷ rounds) c h k =
    elim (Bool-cases (ltb 0 n && ltb c.busy_missed_pongs max_busy_missed_pongs)) [
      | inr stale ↦ rw stale refl
      | inl busy ↦ rw busy (
          reaped_pinged rounds (record c { busy_missed_pongs = c.busy_missed_pongs + 1 })
            (omega arith) (ground arith))
    ]

kept_pinged :
    (rounds : List (ℕ × Bool)) (c : ClientConnection)
    → Busy rounds
    → length rounds + c.busy_missed_pongs ≤ max_busy_missed_pongs
    → silent rounds (pinged c) ≢ none
unfolding silent beat
kept_pinged [] c b h = λ e. absurd (cc)
kept_pinged ((n, w) ∷ rounds) c b h =
    let busy : (ltb 0 n && ltb c.busy_missed_pongs max_busy_missed_pongs) ≡ true =
      ground (arith, b.0) in
    rw busy (
      kept_pinged rounds (record c { busy_missed_pongs = c.busy_missed_pongs + 1 }) b.1
        (omega arith))

reaped_at_last :
    (rounds : List (ℕ × Bool)) (c : ClientConnection)
    → max_busy_missed_pongs + 2 ≤ length rounds
    → silent rounds c ≡ none
unfolding silent beat
reaped_at_last [] c h = absurd (omega arith)
reaped_at_last ((n, w) ∷ rounds) c h = elim (Bool-cases c.pending_ping) [
  | inl p ↦
      let e : c ≡ pinged c = ap (λ b. record c { pending_ping = b }) p in
      rw e (reaped_pinged ((n, w) ∷ rounds) c (omega arith) (omega arith))
  | inr p ↦ elim (Bool-cases (c.is_open && w)) [
    | inr failed ↦ rw (p, failed) refl
    | inl written ↦ rw (p, written) (reaped_pinged rounds c (omega arith) (omega arith))
  ]
]

-- open, with no ping and no missed pong outstanding
abbrev pub fresh : ClientConnection → ClientConnection
fresh c = record c { pending_ping = false; busy_missed_pongs = 0; is_open = true }

kept_fresh :
    (rounds : List (ℕ × Bool)) (c : ClientConnection)
    → Busy rounds
    → length rounds ≤ max_busy_missed_pongs + 1
    → silent rounds (fresh c) ≢ none
unfolding silent beat
kept_fresh [] c b h = λ e. absurd (cc)
kept_fresh ((n, w) ∷ rounds) c b h = rw b.0.1 (kept_pinged rounds (fresh c) b.1 (omega arith))

-- A connection that answers no ping is found stale within six rounds of the heartbeat, whatever is in
-- flight. One that is open, has no ping or missed pong outstanding, and has a delivery in flight and its
-- ping written in every round, outlives the first five.
pub reaped_within_six :
    (rounds : List (ℕ × Bool)) (c : ClientConnection)
    → (max_busy_missed_pongs + 2 ≤ length rounds → silent rounds c ≡ none)
      × (Busy rounds → length rounds ≤ max_busy_missed_pongs + 1 → silent rounds (fresh c) ≢ none)
reaped_within_six rounds c = (reaped_at_last rounds c, kept_fresh rounds c)
