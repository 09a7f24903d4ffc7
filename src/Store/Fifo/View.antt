-- ===== src/Store/Fifo/View.antt =====
-- What the changes of the table are for the messages in it.
use agent_wake.Prelude.{
  ℕ, String, ◌≡◌, refl, sym, ap, ◌∙◌, inl, inr, Bool, true, false, not, Option, none, some, List,
  [], ◌∷◌, map, arith, ◌==◌, eq_refl, eqb, length, keep, any, length-map, Bool-cases,
}
use agent_wake.Store.State.{PendingEvent}
use agent_wake.Store.Queue.{is_addressed, or_source, is_queued, bump, bump_all, with_attempt}
use agent_wake.Store.Prune.{is_expired}
use agent_wake.Store.Fifo.{Message, has_event, unexpired, message_of}
use agent_wake.Store.Fifo.Commute.{keep_comm, keep-map, keep-ext}

-- a claim changes what the abstraction forgets
view-bump :
    (d : String) (i : ℕ) (rows : List PendingEvent)
    → map message_of (keep (is_addressed d) (bump i rows))
      ≡ map message_of (keep (is_addressed d) rows)
unfolding bump is_addressed keep
view-bump d i [] = refl
view-bump d i (r ∷ rows) = elim (Bool-cases (eqb r.row_id i)) [
  | inl y ↦ rw y (elim (Bool-cases (is_addressed d r)) [
    | inl a ↦ rw a (ap (λ l. message_of r ∷ l) (view-bump d i rows))
    | inr b ↦ rw b (view-bump d i rows)
  ])
  | inr n ↦ rw n (elim (Bool-cases (is_addressed d r)) [
    | inl a ↦ rw a (ap (λ l. message_of r ∷ l) (view-bump d i rows))
    | inr b ↦ rw b (view-bump d i rows)
  ])
]

pub view-bump_all :
    (d : String) (rows table : List PendingEvent)
    → map message_of (keep (is_addressed d) (bump_all rows table))
      ≡ map message_of (keep (is_addressed d) table)
unfolding bump_all
view-bump_all d [] table = refl
view-bump_all d (r ∷ rows) table =
    view-bump_all d rows (bump r.row_id table) ∙ view-bump d r.row_id table

pub length-bump_all : (rows table : List PendingEvent) → length (bump_all rows table) ≡ length table
unfolding bump_all bump
length-bump_all [] table = refl
length-bump_all (r ∷ rows) table = length-bump_all rows (bump r.row_id table) ∙ length-map _ table

pub forget_attempt :
    (rows : List PendingEvent) → map message_of (map with_attempt rows) ≡ map message_of rows
forget_attempt [] = refl
forget_attempt (r ∷ rows) = ap (λ l. message_of r ∷ l) (forget_attempt rows)

-- a filter on rows that looks only at the message is one on the messages
pub view-keep :
    (p : PendingEvent → Bool) (q : Message → Bool)
    → ((r : PendingEvent) → p r ≡ q (message_of r))
    → (d : String) (rows : List PendingEvent)
    → map message_of (keep (is_addressed d) (keep p rows))
      ≡ keep q (map message_of (keep (is_addressed d) rows))
view-keep p q h d rows =
    ap (map message_of) (
      keep_comm (is_addressed d) p rows
      ∙ keep-ext p (λ r. q (message_of r)) h (keep (is_addressed d) rows))
    ∙ sym (keep-map q message_of (keep (is_addressed d) rows))

pub alive : (now : ℕ) (r : PendingEvent) → not (is_expired now r) ≡ unexpired now (message_of r)
unfolding is_expired
alive now r = ground arith

pub absent :
    (id d : String) (rows : List PendingEvent)
    → is_queued id rows ≡ false
    → has_event id (map message_of (keep (is_addressed d) rows)) ≡ false
unfolding is_queued any keep
absent id d [] h = refl
absent id d (r ∷ rows) h = elim (Bool-cases (is_addressed d r)) [
  | inl y ↦ rw y (ground (arith, absent id d rows))
  | inr n ↦ rw n (absent id d rows (ground arith))
]

-- the destination that a row is addressed to
home : PendingEvent → String
home r = or_source r.destination r.source

addressed_home :
    (o : Option String) (source t : String)
    → t ≡ or_source o source
    → (elim o [ none ↦ source == t | some d ↦ d == t ]) ≡ true
unfolding or_source
addressed_home none source t h = rw h (eq_refl source)
addressed_home (some d) source t h = rw h (eq_refl d)

home_addressed : (r : PendingEvent) → is_addressed (home r) r ≡ true
unfolding home is_addressed
home_addressed r = addressed_home r.destination r.source (home r) refl

pub present :
    (id : String) (rows : List PendingEvent)
    → is_queued id rows ≡ true
    → (d : String) × (has_event id (map message_of (keep (is_addressed d) rows)) ≡ true)
unfolding is_queued any keep
present id [] h = absurd (cc)
present id (r ∷ rows) h = elim (Bool-cases (r.event_id == id)) [
  | inl y ↦ (home r, rw (home_addressed r) (rw y refl))
  | inr n ↦
      let (d, found) = present id rows (rw n at h) in
      (d, elim (Bool-cases (is_addressed d r)) [ inl a ↦ rw a (rw n found) | inr b ↦ rw b found ])
]
