-- ===== src/Router/Drain/Rows.antt =====
-- The rows of the queue at a claim and at the end of their attempts.
use agent_wake.Prelude.{
  ℕ, zero, suc, String, ◌≡◌, refl, ap, ◌∙◌, Bool, true, false, not, ◌||◌, inl, inr, Option, none,
  some, List, [], ◌∷◌, ◌++◌, ◌==◌, map, arith, keep, any, take, eqb, eqb_iff, All, All-keep,
  Bool-cases,
}
use agent_wake.Store.State.{WakeStore, PendingEvent, DeadLetter}
use agent_wake.Store.Queue.{
  delete_pending, is_queued, claim_pending, claim_rows, claimable, bump, bump_all, with_attempt,
}
use agent_wake.Store.DeadLetters.{insert_dead_letter}
use agent_wake.Router.Drain.{exhaust}

-- the row ids name the events
abbrev pub Named : (ℕ → String) → List PendingEvent → Type 0
Named names rows = All (λ r. r.event_id ≡ names r.row_id) rows

-- the event has a queued row or a dead letter
unfoldable pub is_kept : String → WakeStore → Bool
is_kept e st = is_queued e st.pending || any (λ d. d.ref_id == e) st.dead_letters

abbrev pub Kept : (ℕ → String) → String → Option WakeStore → Type 0
Kept names e none = ⊥
Kept names e (some st) = Named names st.pending × (is_kept e st ≡ true)

or_true : (a b : Bool) → a || (b || true) ≡ true
or_true a b = ground arith

or_left : (a b c : Bool) → a || b ≡ true → a || (b || c) ≡ true
or_left a b c h = ground arith

module _ (names : ℕ → String) (e : String) where
  Named-bump : (i : ℕ) (rows : List PendingEvent) → Named names rows → Named names (bump i rows)
  unfolding bump
  Named-bump i [] h = tt
  Named-bump i (r ∷ rows) h = elim (Bool-cases (eqb r.row_id i)) [
    | inl y ↦ rw y (h.0, Named-bump i rows h.1)
    | inr n ↦ rw n (h.0, Named-bump i rows h.1)
  ]

  queued-bump : (i : ℕ) (rows : List PendingEvent) → is_queued e (bump i rows) ≡ is_queued e rows
  unfolding bump is_queued any
  queued-bump i [] = refl
  queued-bump i (r ∷ rows) = elim (Bool-cases (eqb r.row_id i)) [
    | inl y ↦ rw y (ap (◌||◌ (r.event_id == e)) (queued-bump i rows))
    | inr n ↦ rw n (ap (◌||◌ (r.event_id == e)) (queued-bump i rows))
  ]

  Named-bump_all : (rs rows : List PendingEvent) → Named names rows → Named names (bump_all rs rows)
  unfolding bump_all
  Named-bump_all [] rows h = h
  Named-bump_all (r ∷ rs) rows h =
      Named-bump_all rs (bump r.row_id rows) (Named-bump r.row_id rows h)

  queued-bump_all :
      (rs rows : List PendingEvent) → is_queued e (bump_all rs rows) ≡ is_queued e rows
  unfolding bump_all
  queued-bump_all [] rows = refl
  queued-bump_all (r ∷ rs) rows =
      queued-bump_all rs (bump r.row_id rows) ∙ queued-bump r.row_id rows

  Named-take : (n : ℕ) (rows : List PendingEvent) → Named names rows → Named names (take n rows)
  Named-take zero rows h = tt
  Named-take (suc n) [] h = tt
  Named-take (suc n) (r ∷ rows) h = (h.0, Named-take n rows h.1)

  Named-with_attempt :
      (rows : List PendingEvent) → Named names rows → Named names (map with_attempt rows)
  Named-with_attempt [] h = tt
  Named-with_attempt (r ∷ rows) h = (h.0, Named-with_attempt rows h.1)

  -- A claim keeps every event, and its rows are named alike.
  pub Kept-claim :
      (now limit : ℕ) (name : String) (st : WakeStore)
      → Kept names e (some st)
      → Kept names e (some (claim_pending now name limit st).0)
        × Named names (claim_pending now name limit st).1
  unfolding claim_pending claim_rows is_kept
  Kept-claim now limit name st (named_rows, kept) = (
    (Named-bump_all (claim_rows now name limit st) st.pending named_rows, rw queued-bump_all kept),
    Named-with_attempt (claim_rows now name limit st) (
        Named-take limit (keep (claimable now name) st.pending)
          (All-keep (λ r. r.event_id ≡ names r.row_id) (claimable now name) st.pending named_rows)),
  )

  -- a row of another event stays
  queued-delete :
      (i : ℕ) (rows : List PendingEvent)
      → Named names rows
      → names i == e ≡ false
      → is_queued e (keep (λ r. not (eqb r.row_id i)) rows) ≡ is_queued e rows
  unfolding is_queued any keep
  queued-delete i [] h other = refl
  queued-delete i (r ∷ rows) h other = elim (Bool-cases (eqb r.row_id i)) [
    | inl y ↦
        let here : r.event_id == e ≡ false =
          ap (λ s. s == e) (h.0 ∙ ap names ((eqb_iff r.row_id i).0 y)) ∙ other in
        rw (y, here) (queued-delete i rows h.1 other)
    | inr n ↦ rw n (ap (◌||◌ (r.event_id == e)) (queued-delete i rows h.1 other))
  ]

  any-last :
      (ds : List DeadLetter) (d : DeadLetter)
      → any (λ x. x.ref_id == e) (ds ++ d ∷ []) ≡ (any (λ x. x.ref_id == e) ds || d.ref_id == e)
  unfolding any
  any-last [] d = ground arith
  any-last (x ∷ ds) d = ground (arith, any-last ds d)

  pub Kept-exhaust :
      (dl_id : String) (now : ℕ) (row : PendingEvent) (st : WakeStore)
      → row.event_id ≡ names row.row_id
      → Kept names e (some st)
      → Kept names e (some (exhaust dl_id now row st))
  unfolding exhaust delete_pending insert_dead_letter is_kept
  Kept-exhaust dl_id now row st here (named_rows, kept) = (
    All-keep (λ r. r.event_id ≡ names r.row_id) (λ r. not (eqb r.row_id row.row_id)) st.pending
        named_rows,
    elim (Bool-cases (names row.row_id == e)) [
      | inl y ↦
          rw (any-last, here, y)
            (or_true (is_queued e (keep (λ r. not (eqb r.row_id row.row_id)) st.pending))
              (any (λ d. d.ref_id == e) st.dead_letters))
      | inr n ↦
          rw (any-last, queued-delete row.row_id st.pending named_rows n)
            (or_left (is_queued e st.pending) (any (λ d. d.ref_id == e) st.dead_letters)
              (row.event_id == e) kept)
    ],
  )
