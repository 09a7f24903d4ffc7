-- ===== src/Cli/Redrive/Lost.antt =====
-- What a redrive does not carry over from the delivery that failed.
use agent_wake.Prelude.{
  ℕ, String, ◌≡◌, refl, ap, ◌∙◌, inl, inr, Bool, true, false, Option, none, some, List, [], ◌∷◌,
  ◌++◌, ◌==◌, map, find, take, keep, keep-append, Bool-cases,
}
use agent_wake.Json.{Fields, obj, end, get, text_at, py_str}
use agent_wake.Store.State.{WakeStore, DeadLetter, PendingEvent}
use mathlib.Core.List.{append-nil}
use agent_wake.Store.Queue.{
  enqueue_pending, pending_row, claimable, is_addressed, claim_rows, or_source,
}
use agent_wake.Store.Queue.Claim.{pending-enqueue}
use agent_wake.Store.DeadLetters.{get_dead_letter, mark_redriven, marked_letter}
use agent_wake.Outbox.{Reply, letter_payload, reply_body, peer_identity}
use agent_wake.Cli.Redrive.{
  RedriveWorld, reply_of, mark, mark_of, redrive_next_session, redrive, redriven_alert,
}
use agent_wake.Cli.Redrive.Marked.{is_success, Marked-redrive}

-- The dead letter of a reply whose redrive is posted keeps its source, id, question and content, but not
-- the destination that produced it: the body that is posted then names nobody as its author.
pub redriven_reply_is_anonymous :
    (cfg : Fields) (r : Reply)
    → (reply_of (letter_payload r) ≡ record r { reply_destination = none })
      × (get "meta" (reply_body cfg (reply_of (letter_payload r))) ≡ some (obj end))
unfolding reply_of letter_payload reply_body peer_identity get text_at py_str
redriven_reply_is_anonymous cfg r = (refl, refl)

unaddressed :
    (now now' : ℕ) (d : String) (event : Fields) (st : WakeStore)
    → (text_at "source" event == d) ≡ false
    → claimable now' d (pending_row now event none st) ≡ false
unfolding claimable pending_row or_source is_addressed
unaddressed now now' d event st h = rw h refl

-- a mark changes neither the payload nor the kind of the letter that is read back
payload-map :
    (now : ℕ) (id : String) (status : String) (error : Option String) (ds : List DeadLetter)
    (d : DeadLetter)
    → find (λ x. x.id == id) ds ≡ some d
    → (d' : DeadLetter) × (find (λ x. x.id == id) (map (marked_letter now id status error) ds)
        ≡ some d')
      × (d'.payload ≡ d.payload)
unfolding find marked_letter
payload-map now id status error [] d h = absurd (cc)
payload-map now id status error (x ∷ ds) d h = elim (Bool-cases (x.id == id)) [
  | inl y ↦
      let k : some x ≡ some d = rw y at h in
      (marked_letter now id status error x, rw (y, y) refl, rw y (cc))
  | inr n ↦
      let (d', found, same) = payload-map now id status error ds d (rw n at h) in
      (d', rw (n, n) found, same)
]

-- A redrive of a queued event that the queue takes leaves every destination but the one that is spelled
-- like the sender with the rows that it could claim before, whatever destination the event was queued
-- for when its attempts were used up.
pub requeued_for_the_source :
    (w : RedriveWorld) (entry : DeadLetter) (st : WakeStore) (now limit : ℕ) (d : String)
    → (enqueue_pending w.enqueue_now entry.payload none st).1 ≡ true
    → (text_at "source" entry.payload == d) ≡ false
    → claim_rows now d limit (redrive_next_session w entry st).0 ≡ claim_rows now d limit st
unfolding redrive_next_session mark mark_redriven claim_rows keep
requeued_for_the_source w entry st now limit d accepted other =
    let row = pending_row w.enqueue_now entry.payload none st in
    let p : PendingEvent → Bool = claimable now d in
    let none_kept : keep p (row ∷ []) ≡ [] =
      rw (unaddressed w.enqueue_now now d entry.payload st other) refl in
    ap (take limit) (
      ap (keep p) (pending-enqueue w.enqueue_now entry.payload none st accepted)
      ∙ keep-append p st.pending (row ∷ [])
      ∙ ap (λ l. keep p st.pending ++ l) none_kept
      ∙ append-nil (keep p st.pending))

-- A redrive leaves the payload of its letter as it was, whatever came of it: a channel that it reached is
-- not among those that the next redrive of the letter skips, and gets the alert again.
pub redrive_keeps_payload :
    (w : RedriveWorld) (cfg : Fields) (id : String) (st : WakeStore) (d : DeadLetter)
    → get_dead_letter id st ≡ some d
    → (d' : DeadLetter) × (get_dead_letter id (redrive w cfg id st).0 ≡ some d')
      × (d'.payload ≡ d.payload)
      × ((w' : RedriveWorld) (event : Fields)
          → redriven_alert w' cfg d'.payload event ≡ redriven_alert w' cfg d.payload event)
unfolding get_dead_letter mark_redriven
redrive_keeps_payload w cfg id st d h = elim (Marked-redrive w cfg id st) [
  | inl (same, _) ↦ (d, ap (find (λ x. x.id == id)) same ∙ h, refl, λ w' event. refl)
  | inr (error, marked) ↦
      let (d', found, kept) =
        payload-map w.mark_now id (mark_of (is_success (redrive w cfg id st).1)) error
          st.dead_letters d h in
      (
        d',
        ap (find (λ x. x.id == id)) marked ∙ found,
        kept,
        λ w' event. ap (λ p. redriven_alert w' cfg p event) kept,
      )
]
