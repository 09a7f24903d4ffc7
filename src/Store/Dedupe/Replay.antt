-- ===== src/Store/Dedupe/Replay.antt =====
-- A replayed event id is refused for as long as the retention window and the cap allow.
use agent_wake.Prelude.{
  ℕ, ◌+◌, ◌≤◌, String, ◌≡◌, refl, ◌∙◌, Bool, true, false, not, ◌&&◌, List, [], ◌∷◌, ◌++◌, ◌==◌,
  arith, length, any, keep, leb, All, eq_refl, length-append, length-keep-le, Bool-cases, inl, inr,
}
use agent_wake.Store.State.{WakeStore, SeenEvent, prune_interval}
use agent_wake.Store.Prune.{
  prune, swept, sweep_dedupe, cap_seen, fresh_seen, is_stale, expired_pending,
}
use agent_wake.Store.Prune.Bounds.{dedupe-promote, limits-promote}
use agent_wake.Store.Dedupe.{is_seen, insert_or_ignore, recorded, check_and_record_event}

-- One call of `check_and_record_event`.
pub record Check : Type 0 where
  pub now : ℕ
  pub sweep : ℕ
  pub at : ℕ
  pub event_id : String
  pub source : String

abbrev pub run_check : (ℕ → String) → Check → WakeStore → WakeStore × Bool
run_check ulid c st = check_and_record_event ulid c.now c.sweep c.at c.event_id c.source st

unfoldable pub run_checks : (ℕ → String) → List Check → WakeStore → WakeStore
run_checks ulid [] st = st
run_checks ulid (c ∷ cs) st = run_checks ulid cs (run_check ulid c st).0

module _ (e : String) (t : ℕ) where
  -- the event has a row that was written at t or later
  abbrev since : SeenEvent → Bool
  since r = r.event_id == e && leb t r.seen_at

  any-append : (xs ys : List SeenEvent) → any since xs ≡ true → any since (xs ++ ys) ≡ true
  unfolding any
  any-append [] ys h = absurd (cc)
  any-append (x ∷ xs) ys h = ground (arith, any-append xs ys)

  any-last :
      (xs : List SeenEvent) (r : SeenEvent) → since r ≡ true → any since (xs ++ r ∷ []) ≡ true
  unfolding any
  any-last [] r h = rw h
  any-last (x ∷ xs) r h = ground (arith, any-last xs r h)

  since-insert :
      (id source : String) (now : ℕ) (rows : List SeenEvent)
      → any since rows ≡ true
      → any since (insert_or_ignore id source now rows) ≡ true
  unfolding insert_or_ignore
  since-insert id source now rows h =
      ground
        (arith, any-append rows (record { event_id = id; source = source; seen_at = now } ∷ []))

  since-fresh :
      (now ttl : ℕ) (rows : List SeenEvent)
      → now ≤ t + ttl
      → any since rows ≡ true
      → any since (keep (λ r. not (is_stale now ttl r)) rows) ≡ true
  unfolding any keep is_stale
  since-fresh now ttl [] w h = absurd (cc)
  since-fresh now ttl (r ∷ rows) w h = ground (arith, since-fresh now ttl rows w)

  seen-of_since : (rows : List SeenEvent) → any since rows ≡ true → is_seen e rows ≡ true
  unfolding any is_seen
  seen-of_since [] h = absurd (cc)
  seen-of_since (r ∷ rows) h = ground (arith, seen-of_since rows)

length-insert_or_ignore :
    (id source : String) (now : ℕ) (rows : List SeenEvent)
    → length (insert_or_ignore id source now rows) ≤ length rows + 1
unfolding insert_or_ignore
length-insert_or_ignore id source now rows =
    ground
      (arith, length-append rows (record { event_id = id; source = source; seen_at = now } ∷ []))

cap_seen_of-le : (cap : ℕ) (rows : List SeenEvent) → length rows ≤ cap → cap_seen cap rows ≡ rows
unfolding cap_seen
cap_seen_of-le cap rows h = ground arith

-- With room in the table and inside the window, a prune keeps the row and adds none.
dedupe-prune :
    (ulid : ℕ → String) (now at : ℕ) (st : WakeStore)
    → length st.dedupe ≤ st.limits.dedupe_max_rows
    → (prune ulid now at st).dedupe ≡ fresh_seen now st
unfolding prune swept sweep_dedupe
dedupe-prune ulid now at st room = rw dedupe-promote (
    cap_seen_of-le st.limits.dedupe_max_rows (fresh_seen now st) (
      unfold fresh_seen in
      omega
        (arith, length-keep-le (λ r. not (is_stale now st.limits.dedupe_ttl_seconds r)) st.dedupe)))

limits-prune :
    (ulid : ℕ → String) (now at : ℕ) (st : WakeStore) → (prune ulid now at st).limits ≡ st.limits
unfolding prune swept
limits-prune ulid now at st = limits-promote ulid at 0 (expired_pending now st) _

-- What a check keeps: the row of an earlier event, the limits, and the size but for one row.
record Keeps (e : String) (t : ℕ) (s s' : WakeStore) : Type 0 where
  row : any (since e t) s'.dedupe ≡ true
  size : length s'.dedupe ≤ length s.dedupe + 1
  limits : s'.limits ≡ s.limits

recorded-Keeps :
    (e : String) (t now : ℕ) (id source : String) (st : WakeStore)
    → any (since e t) st.dedupe ≡ true
    → Keeps e t st (recorded now id source st)
unfolding recorded
recorded-Keeps e t now id source st h = record {
  row = since-insert e t id source now st.dedupe h;
  size = length-insert_or_ignore id source now st.dedupe;
  limits = refl;
}

prune-Keeps :
    (e : String) (t : ℕ) (ulid : ℕ → String) (now at : ℕ) (s st : WakeStore)
    → length s.dedupe + 1 ≤ s.limits.dedupe_max_rows
    → now ≤ t + s.limits.dedupe_ttl_seconds
    → Keeps e t s st
    → Keeps e t s (prune ulid now at st)
unfolding fresh_seen
prune-Keeps e t ulid now at s st room w k =
    let same = dedupe-prune ulid now at st (rw k.limits (omega arith)) in
    record {
      row =
          rw same
            (since-fresh e t now st.limits.dedupe_ttl_seconds st.dedupe (rw k.limits w) k.row);
      size = rw same (
          omega (
            arith,
            k.size,
            length-keep-le (λ r. not (is_stale now st.limits.dedupe_ttl_seconds r)) st.dedupe,
          ));
      limits = limits-prune ulid now at st ∙ k.limits;
    }

run_check-Keeps :
    (e : String) (t : ℕ) (ulid : ℕ → String) (c : Check) (s : WakeStore)
    → length s.dedupe + 1 ≤ s.limits.dedupe_max_rows
    → c.sweep ≤ t + s.limits.dedupe_ttl_seconds
    → any (since e t) s.dedupe ≡ true
    → Keeps e t s (run_check ulid c s).0
unfolding check_and_record_event
run_check-Keeps e t ulid c s room w h =
    let r = recorded c.now c.event_id c.source s in
    elim (Bool-cases (leb prune_interval r.inserts_since_prune)) [
      | inl due ↦ rw due (
          prune-Keeps e t ulid c.sweep c.at s r room w
            (recorded-Keeps e t c.now c.event_id c.source s h))
      | inr calm ↦ rw calm (recorded-Keeps e t c.now c.event_id c.source s h)
    ]

replay_refused :
    (ulid : ℕ → String) (e : String) (t : ℕ) (cs : List Check) (st : WakeStore) (again : Check)
    → any (since e t) st.dedupe ≡ true
    → length st.dedupe + length cs ≤ st.limits.dedupe_max_rows
    → All (λ c. c.sweep ≤ t + st.limits.dedupe_ttl_seconds) cs
    → again.event_id ≡ e
    → (run_check ulid again (run_checks ulid cs st)).1 ≡ true
unfolding run_checks check_and_record_event
replay_refused ulid e t [] st again h room w same = rw same (seen-of_since e t st.dedupe h)
replay_refused ulid e t (c ∷ cs) st again h room w same =
    let k = run_check-Keeps e t ulid c st (omega arith) w.0 h in
    replay_refused ulid e t cs (run_check ulid c st).0 again k.row
      (rw k.limits (omega (arith, k.size))) (rw k.limits w.1) same

first-Keeps :
    (ulid : ℕ → String) (c : Check) (st : WakeStore)
    → is_seen c.event_id st.dedupe ≡ false
    → length st.dedupe + 1 ≤ st.limits.dedupe_max_rows
    → c.sweep ≤ c.now + st.limits.dedupe_ttl_seconds
    → Keeps c.event_id c.now st (run_check ulid c st).0
unfolding check_and_record_event
first-Keeps ulid c st new room w =
    let r = recorded c.now c.event_id c.source st in
    let k : Keeps c.event_id c.now st r =
      unfold recorded in
      record {
        row =
            unfold insert_or_ignore in
            rw new (
              any-last c.event_id c.now st.dedupe
                (record { event_id = c.event_id; source = c.source; seen_at = c.now })
                (rw eq_refl (ground arith)));
        size = length-insert_or_ignore c.event_id c.source c.now st.dedupe;
        limits = refl;
      } in
    elim (Bool-cases (leb prune_interval r.inserts_since_prune)) [
      | inl due ↦ rw due (prune-Keeps c.event_id c.now ulid c.sweep c.at st r room w k)
      | inr calm ↦ rw calm k
    ]

-- The first check of a new event id reports it as new. After any further checks, prunes included, a
-- check of the same id reports a duplicate, if every prune runs within the retention time of the
-- first check and the table has room for what the checks add.
pub replay_after_first :
    (ulid : ℕ → String) (first again : Check) (cs : List Check) (st : WakeStore)
    → is_seen first.event_id st.dedupe ≡ false
    → length st.dedupe + length cs + 1 ≤ st.limits.dedupe_max_rows
    → first.sweep ≤ first.now + st.limits.dedupe_ttl_seconds
    → All (λ c. c.sweep ≤ first.now + st.limits.dedupe_ttl_seconds) cs
    → again.event_id ≡ first.event_id
    → ((run_check ulid first st).1 ≡ false)
      × ((run_check ulid again (run_checks ulid cs (run_check ulid first st).0)).1 ≡ true)
replay_after_first ulid first again cs st new room w ws same =
    let k = first-Keeps ulid first st new (omega arith) w in
    (
      unfold check_and_record_event in new,
      replay_refused ulid first.event_id first.now cs (run_check ulid first st).0 again k.row
          (rw k.limits (omega (arith, k.size))) (rw k.limits ws) same,
    )
