-- ===== src/Store/Prune/Conserve.antt =====
-- A prune loses no pending event: what expires is dead-lettered with its payload.
use agent_wake.Prelude.{
  ℕ, suc, ◌+◌, String, ◌≡◌, refl, sym, ap, ◌∙◌, none, some, List, [], ◌∷◌, ◌++◌, map, not, length,
  keep, length-keep-add, length-map, sort_by, length-sort_by, length-keep-sort_by, Bool,
}
use mathlib.Core.List.{append_assoc, append-nil}
use agent_wake.Json.{Fields}
use agent_wake.Store.State.{WakeStore, PendingEvent, DeadLetter}
use agent_wake.Store.Prune.{
  promote, prune, swept, expired_pending, expires_before, is_expired, expiry_error,
  sweep_dead_letters,
}
use agent_wake.Store.Fifo.Commute.{keep-map}
use agent_wake.Store.Prune.Bounds.{pending-promote}

-- what the operator needs of a pending event: kind, source, event id, payload and attempts
abbrev Trace : Type 0
Trace = String × String × String × Fields × ℕ

abbrev pub event_trace : PendingEvent → Trace
event_trace pe = ("next_session", pe.source, pe.event_id, pe.event, pe.attempts)

abbrev pub letter_trace : DeadLetter → Trace
letter_trace d = (d.kind, d.source, d.ref_id, d.payload, d.attempts)

letters_for : (ℕ → String) → ℕ → ℕ → ℕ → List PendingEvent → List DeadLetter
letters_for ulid ttl i at [] = []
letters_for ulid ttl i at (pe ∷ expired) =
    record {
      id = ulid i;
      kind = "next_session";
      source = pe.source;
      ref_id = pe.event_id;
      payload = pe.event;
      error = some (expiry_error ttl pe.source);
      attempts = pe.attempts;
      created_at = at;
      redriven_at = none;
      redrive_status = none;
    }
    ∷ letters_for ulid ttl (suc i) at expired

dead_letters-promote :
    (ulid : ℕ → String) (i at : ℕ) (expired : List PendingEvent) (st : WakeStore)
    → (promote ulid i at expired st).dead_letters
      ≡ st.dead_letters ++ letters_for ulid st.limits.pending_ttl_seconds i at expired
unfolding promote letters_for
dead_letters-promote ulid i at [] st = sym (append-nil _)
dead_letters-promote ulid i at (pe ∷ expired) st =
    dead_letters-promote ulid (suc i) at expired _
    ∙ append_assoc st.dead_letters (_ ∷ [])
        (letters_for ulid st.limits.pending_ttl_seconds (suc i) at expired)

traces_for :
    (ulid : ℕ → String) (ttl i at : ℕ) (expired : List PendingEvent)
    → map letter_trace (letters_for ulid ttl i at expired) ≡ map event_trace expired
unfolding letters_for
traces_for ulid ttl i at [] = refl
traces_for ulid ttl i at (pe ∷ expired) =
    ap (◌∷◌ (event_trace pe)) (traces_for ulid ttl (suc i) at expired)

length_of :
    (ulid : ℕ → String) (ttl i at : ℕ) (expired : List PendingEvent)
    → length (letters_for ulid ttl i at expired) ≡ length expired
unfolding letters_for
length_of ulid ttl i at [] = refl
length_of ulid ttl i at (pe ∷ expired) = ap suc (length_of ulid ttl (suc i) at expired)

-- the rows of an expiry, in whichever order, are those that have expired
counted :
    (q : Trace → Bool) (rows : List PendingEvent)
    → length (keep q (map event_trace rows)) ≡ length (keep (λ r. q (event_trace r)) rows)
counted q rows =
    ap length (keep-map q event_trace rows)
    ∙ length-map event_trace (keep (λ r. q (event_trace r)) rows)

same_rows :
    (now : ℕ) (q : Trace → Bool) (st : WakeStore)
    → length (keep q (map event_trace (expired_pending now st)))
      ≡ length (keep q (map event_trace (keep (is_expired now) st.pending)))
unfolding expired_pending
same_rows now q st =
    let rows = keep (is_expired now) st.pending in
    counted q (sort_by expires_before rows)
    ∙ length-keep-sort_by expires_before (λ r. q (event_trace r)) rows
    ∙ sym (counted q rows)

-- A prune keeps exactly the pending events that have not expired. It appends to the swept
-- dead-letter table one dead letter for each expired event, of kind `next_session` and with the event's
-- source, id, payload and attempts: whatever is asked of these, as many of the new letters meet it as
-- of the expired events. No event is in neither place.
pub prune_conserves :
    (ulid : ℕ → String) (now at : ℕ) (st : WakeStore)
    → (new : List DeadLetter) × ((prune ulid now at st).dead_letters
        ≡ sweep_dead_letters now st ++ new)
      × (length new ≡ length (keep (is_expired now) st.pending))
      × ((q : String × String × String × Fields × ℕ → Bool)
          → length (keep q (map letter_trace new))
            ≡ length (keep q (map event_trace (keep (is_expired now) st.pending))))
      × ((prune ulid now at st).pending ≡ keep (λ r. not (is_expired now r)) st.pending)
      × (length (keep (is_expired now) st.pending) + length (prune ulid now at st).pending
          ≡ length st.pending)
unfolding prune swept
prune_conserves ulid now at st = (
  letters_for ulid st.limits.pending_ttl_seconds 0 at (expired_pending now st),
  dead_letters-promote ulid 0 at (expired_pending now st) _,
  length_of ulid st.limits.pending_ttl_seconds 0 at (expired_pending now st)
      ∙ unfold expired_pending in length-sort_by expires_before (keep (is_expired now) st.pending),
  λ q.
      ap (λ l. length (keep q l))
        (traces_for ulid st.limits.pending_ttl_seconds 0 at (expired_pending now st))
      ∙ same_rows now q st,
  pending-promote ulid at 0 (expired_pending now st) _,
  rw pending-promote (length-keep-add (is_expired now) st.pending),
)
