-- ===== src/Store/Queue/Claim.antt =====
-- What `claim_pending` hands out, and what it leaves in the table.
use agent_wake.Prelude.{
  ℕ, ◌+◌, ◌≤◌, ◌<◌, String, ◌≡◌, refl, sym, ap, ◌∙◌, Bool, true, ◌&&◌, Option, some, List, [], ◌∷◌,
  ◌++◌, map, arith, if◌then◌else◌, ltb, eqb, eq_refl, any, keep, keep-append, take, length, All,
  All-take, keep-All, length-take-le, length-map, All-map_self, take_of_length-le, length-append,
}
use agent_wake.Json.{Fields}
use agent_wake.Store.State.{WakeStore, PendingEvent}
use agent_wake.Store.Queue.{
  enqueue_pending, pending_row, or_source, claim_pending, claim_rows, claimable, is_addressed, bump,
  bump_all, with_attempt,
}

-- a row but for its count of attempts
abbrev pub fixed : PendingEvent → PendingEvent
fixed r = record r { attempts = 0 }

fixed-bump : (i : ℕ) (table : List PendingEvent) → map fixed (bump i table) ≡ map fixed table
unfolding bump
fixed-bump i [] = refl
fixed-bump i (r ∷ table) = ground (arith, fixed-bump i table)

fixed-bump_all :
    (rows table : List PendingEvent) → map fixed (bump_all rows table) ≡ map fixed table
unfolding bump_all
fixed-bump_all [] table = refl
fixed-bump_all (r ∷ rows) table =
    fixed-bump_all rows (bump r.row_id table) ∙ fixed-bump r.row_id table

-- the attempts of the row with an id, 0 if there is none
unfoldable pub attempts_of : ℕ → List PendingEvent → ℕ
attempts_of i [] = 0
attempts_of i (r ∷ table) = if eqb r.row_id i then r.attempts else attempts_of i table

-- how many rows of the list have the id
unfoldable pub times : ℕ → List PendingEvent → ℕ
times i [] = 0
times i (r ∷ rows) = (if eqb r.row_id i then 1 else 0) + times i rows

has_row : ℕ → List PendingEvent → Bool
has_row i = any (λ r. eqb r.row_id i)

has_row-bump : (i j : ℕ) (table : List PendingEvent) → has_row i (bump j table) ≡ has_row i table
unfolding has_row any bump
has_row-bump i j [] = refl
has_row-bump i j (r ∷ table) = ground (arith, has_row-bump i j table)

attempts_of-bump :
    (i j : ℕ) (table : List PendingEvent)
    → has_row i table ≡ true
    → attempts_of i (bump j table) ≡ attempts_of i table + (if eqb j i then 1 else 0)
unfolding attempts_of bump has_row any
attempts_of-bump i j [] h = absurd (cc)
attempts_of-bump i j (r ∷ table) h = ground (arith, attempts_of-bump i j table)

attempts_of-bump_all :
    (i : ℕ) (rows table : List PendingEvent)
    → has_row i table ≡ true
    → attempts_of i (bump_all rows table) ≡ attempts_of i table + times i rows
unfolding bump_all times
attempts_of-bump_all i [] table h = omega arith
attempts_of-bump_all i (r ∷ rows) table h = omega (
  arith,
  attempts_of-bump_all i rows (bump r.row_id table) (rw has_row-bump h),
  attempts_of-bump i r.row_id table h,
)

times-with_attempt :
    (i : ℕ) (rows : List PendingEvent) → times i (map with_attempt rows) ≡ times i rows
unfolding times
times-with_attempt i [] = refl
times-with_attempt i (r ∷ rows) = ground (arith, times-with_attempt i rows)

-- A claim hands out at most `limit` rows, all addressed to the destination and not expired. It
-- removes no row and changes nothing in a row but its attempts, and those of a row that is there grow
-- by the number of rows with that id that were claimed.
pub claim_at_least_once :
    (now : ℕ) (destination : String) (limit : ℕ) (st : WakeStore)
    → let c = claim_pending now destination limit st in
      (length c.1 ≤ limit)
      × All (λ r. (is_addressed destination r && ltb now r.expires_at) ≡ true) c.1
      × (map fixed c.0.pending ≡ map fixed st.pending)
      × ((i : ℕ)
          → any (λ r. eqb r.row_id i) st.pending ≡ true
          → attempts_of i c.0.pending ≡ attempts_of i st.pending + times i c.1)
unfolding claim_pending claim_rows claimable
claim_at_least_once now destination limit st =
    let rows = claim_rows now destination limit st in
    (
      rw length-map (length-take-le limit (keep (claimable now destination) st.pending)),
      All-map_self (λ r. claimable now destination r ≡ true) with_attempt (λ r h. h) rows
          (All-take (λ r. claimable now destination r ≡ true) limit
            (keep (claimable now destination) st.pending)
            (keep-All (claimable now destination) st.pending)),
      fixed-bump_all rows st.pending,
      λ i h. rw times-with_attempt (attempts_of-bump_all i rows st.pending (unfold has_row in h)),
    )

pub pending-enqueue :
    (now : ℕ) (event : Fields) (destination : Option String) (st : WakeStore)
    → (enqueue_pending now event destination st).1 ≡ true
    → (enqueue_pending now event destination st).0.pending
      ≡ st.pending ++ pending_row now event destination st ∷ []
unfolding enqueue_pending
pending-enqueue now event destination st h = ground arith

claimable-row :
    (now now' : ℕ) (event : Fields) (d : String) (st : WakeStore)
    → now' < now + st.limits.pending_ttl_seconds
    → claimable now' d (pending_row now event (some d) st) ≡ true
unfolding claimable pending_row or_source
claimable-row now now' event d st h = rw eq_refl (ground arith)

-- An event that was accepted for a destination is the next row that a claim of that destination
-- hands out, behind those claimable before, until it expires.
pub claim-enqueue :
    (now now' limit : ℕ) (event : Fields) (d : String) (st : WakeStore)
    → (enqueue_pending now event (some d) st).1 ≡ true
    → now' < now + st.limits.pending_ttl_seconds
    → length (keep (claimable now' d) st.pending) < limit
    → claim_rows now' d limit (enqueue_pending now event (some d) st).0
      ≡ claim_rows now' d limit st ++ pending_row now event (some d) st ∷ []
unfolding claim_rows
claim-enqueue now now' limit event d st accepted live room =
    let row = pending_row now event (some d) st in
    let p = claimable now' d in
    let one : keep p (row ∷ []) ≡ row ∷ [] =
      unfold keep in rw (claimable-row now now' event d st live) in
    let both : keep p (enqueue_pending now event (some d) st).0.pending
        ≡ keep p st.pending ++ row ∷ [] =
      ap (keep p) (pending-enqueue now event (some d) st accepted)
      ∙ keep-append p st.pending (row ∷ [])
      ∙ ap (λ l. keep p st.pending ++ l) one in
    ap (take limit) both
    ∙ take_of_length-le limit _ (omega (arith, length-append (keep p st.pending) (row ∷ [])))
    ∙ ap (λ l. l ++ row ∷ []) (sym (take_of_length-le limit (keep p st.pending) (omega arith)))
