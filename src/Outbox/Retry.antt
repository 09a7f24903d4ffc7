-- ===== src/Outbox/Retry.antt =====
-- The attempts of the outbox: which of them succeeds, and the reply that none delivers.
use agent_wake.Prelude.{
  ℕ, zero, suc, ◌+◌, ◌-◌, min, ◌≤◌, String, ◌≡◌, ◌≢◌, refl, ◌∙◌, ◌⊎◌, inl, inr, Bool, true, false,
  ◌||◌, ◌==◌, Option, none, some, List, [], ◌∷◌, arith, length, length-append, Bool-cases,
  Option-cases,
}
use agent_wake.Store.State.{WakeStore}
use agent_wake.Store.DeadLetters.{insert_dead_letter}
use agent_wake.Outbox.Url.{url_scheme}
use agent_wake.Outbox.Callback.{
  allowed, disallowed, is_unparsable, scheme_error, validate_callback_url,
}
use agent_wake.Outbox.{
  Outbox, Attempt, response, raised, Tried, Reply, is_success, note_failure, note_success,
  after_failure, backoff, try_from, try_all, callback_url, letter_payload, outbox_letter, conclude,
  deliver_reply, ReplyWorld, ReplyResult, replied, give_up, letter_raises,
}

-- How the attempts from one index on end: at the first success, or after all of them.
pub data Ends (answers : ℕ → Attempt) : ℕ → ℕ → Option ℕ → Type 0 where
  delivers :
      (n i s : ℕ)
      → answers i ≡ response s
      → is_success (answers i) ≡ true
      → Ends answers (suc n) i (some s)
  fails_then :
      (n i : ℕ) (r : Option ℕ)
      → is_success (answers i) ≡ false
      → Ends answers n (i + 1) r
      → Ends answers (suc n) i r
  gives_up : (i : ℕ) → Ends answers zero i none

module _ (answers : ℕ → Attempt) (delays : List ℕ) where
  success-note :
      (i : ℕ) (a : Attempt) (t : Tried)
      → answers i ≡ a
      → is_success a ≡ true
      → (s : ℕ) × (answers i ≡ response s) × ((note_success a t).delivered ≡ some s)
  unfolding is_success note_success
  success-note i (response s) t e h = (s, e, refl)
  success-note i (raised m) t e h = absurd (cc)

  slept-note_success : (a : Attempt) (t : Tried) → (note_success a t).slept ≡ t.slept
  unfolding note_success
  slept-note_success (response s) t = refl
  slept-note_success (raised m) t = refl

  delivered-after_failure :
      (a : Attempt) (left i : ℕ) (t : Tried)
      → (after_failure a delays left i t).delivered ≡ t.delivered
  unfolding after_failure note_failure
  delivered-after_failure (response s) left i t = ground arith
  delivered-after_failure (raised m) left i t = ground arith

  slept-after_failure :
      (a : Attempt) (left i : ℕ) (t : Tried)
      → length (after_failure a delays left i t).slept ≡ length t.slept + min left 1
  unfolding after_failure note_failure
  slept-after_failure (response s) zero i t = omega arith
  slept-after_failure (response s) (suc left) i t =
      ground (arith, length-append t.slept (backoff i delays ∷ []))
  slept-after_failure (raised m) zero i t = omega arith
  slept-after_failure (raised m) (suc left) i t =
      ground (arith, length-append t.slept (backoff i delays ∷ []))

  tried-Ends :
      (left i : ℕ) (t : Tried)
      → t.delivered ≡ none
      → Ends answers left i (try_from answers delays left i t).delivered
  unfolding try_from
  tried-Ends zero i t h = rw h (gives_up i)
  tried-Ends (suc left) i t h = elim (Bool-cases (is_success (answers i))) [
    | inl good ↦
        let (s, is, noted) = success-note i (answers i) t refl good in
        rw (good, noted) (delivers left i s is good)
    | inr bad ↦ rw bad (
        fails_then left i _ bad (
          tried-Ends left (i + 1) (after_failure (answers i) delays left i t)
            (delivered-after_failure (answers i) left i t ∙ h)))
  ]

  slept-try_from :
      (left i : ℕ) (t : Tried)
      → length (try_from answers delays left i t).slept ≤ length t.slept + (left - 1)
  unfolding try_from
  slept-try_from zero i t = omega arith
  slept-try_from (suc left) i t = elim (Bool-cases (is_success (answers i))) [
    | inl good ↦ rw (good, slept-note_success) (omega arith)
    | inr bad ↦
        let n = slept-after_failure (answers i) left i t in
        let ih = slept-try_from left (i + 1) (after_failure (answers i) delays left i t) in
        rw bad (omega (arith, n, ih))
  ]

-- A reply is delivered by the first attempt that the callback answers with a status from 200 to 299,
-- and by none if `max_retries` attempts have no such answer; between the attempts there are at most
-- `max_retries - 1` delays.
pub attempts_end :
    (answers : ℕ → Attempt) (o : Outbox)
    → Ends answers o.max_retries 0 (try_all answers o).delivered
      × (length (try_all answers o).slept ≤ o.max_retries - 1)
unfolding try_all
attempts_end answers o = (
  tried-Ends answers o.backoff_delays o.max_retries 0 _ refl,
  omega (
    arith,
    slept-try_from answers o.backoff_delays o.max_retries 0
        (record { delivered = none; last_http_status = none; last_error = none; slept = [] }),
  ),
)

-- what a reply leaves: nothing new, or one dead letter that holds it
abbrev pub Lettered : Reply → Option WakeStore → Option WakeStore → Type 0
Lettered r none s' = s' ≡ none
Lettered r (some st) s' =
    (dl_id : String) × (now : ℕ) × (error : Option String) × (attempts : ℕ) × (s'
      ≡ some (
          insert_dead_letter dl_id now "reply" r.source r.reply_id (letter_payload r) error attempts
            st))

Lettered-outbox_letter :
    (dl_id : String) (now : ℕ) (r : Reply) (error : Option String) (attempts : ℕ)
    (store : Option WakeStore)
    → Lettered r store (outbox_letter dl_id now r error attempts store).0
unfolding outbox_letter
Lettered-outbox_letter dl_id now r error attempts none = refl
Lettered-outbox_letter dl_id now r error attempts (some st) = (dl_id, now, error, attempts, refl)

-- a reply that is given up, if the store takes its dead letter
given_up :
    (w : ReplyWorld) (r : Reply) (status : String) (http : Option ℕ) (error : Option String)
    (attempts : ℕ) (o : Outbox)
    → w.write_fails ≡ false
    → (result : ReplyResult) × ((give_up w r status http error attempts o).1 ≡ replied result)
      × (result.status ≡ status)
      × Lettered r o.store (give_up w r status http error attempts o).0.store
unfolding give_up letter_raises
given_up w r status http error attempts o ok =
    rw ok (_, refl, refl, Lettered-outbox_letter w.letter_id w.now r error attempts o.store)

checked :
    (rejects : String → Bool) (url : String)
    → is_unparsable rejects url ≡ false
    → (validate_callback_url rejects url ≡ allowed)
      ⊎ ((err : String) × (validate_callback_url rejects url ≡ disallowed err))
unfolding validate_callback_url
checked rejects url fine =
    elim (Bool-cases (url_scheme url == "http" || url_scheme url == "https")) [
      | inl web ↦ inl (rw (fine, web) refl)
      | inr other ↦ inr (scheme_error url, rw (fine, other) refl)
    ]

-- If a source has a callback URL that `urlparse` takes, the task is not cancelled and the store takes
-- what is written, then a reply of the source has a result. It is delivered, and then the store is left
-- alone; or it is put into one dead letter with its source, id, question, content and destination, if
-- there is a store: as "failed" when no attempt succeeds, as "rejected" when the URL is refused.
pub reply_kept_or_delivered :
    (w : ReplyWorld) (r : Reply) (o : Outbox) (url : String)
    → callback_url o.config r.source ≡ some url
    → is_unparsable w.rejects url ≡ false
    → w.is_cancelled ≡ false
    → w.write_fails ≡ false
    → let s = deliver_reply w r o in
      (result : ReplyResult) × (s.1 ≡ replied result)
      × (((result.status ≡ "delivered")
            × (s.0 ≡ w.meanwhile o)
            × ((try_all w.answers o).delivered ≢ none))
          ⊎ ((result.status ≡ "failed")
              × Lettered r (w.meanwhile o).store s.0.store
              × ((try_all w.answers o).delivered ≡ none))
          ⊎ ((result.status ≡ "rejected")
              × Lettered r o.store s.0.store
              × (validate_callback_url w.rejects url ≢ allowed)))
unfolding deliver_reply conclude
reply_kept_or_delivered w r o url has fine going ok = elim (checked w.rejects url fine) [
  | inr (err, bad) ↦
      let (result, is, status, kept) = given_up w r "rejected" none (some err) 0 o ok in
      rw (has, bad, deliver_reply) (result, is, inr (inr (status, kept, λ e. absurd (cc))))
  | inl good ↦ elim (Option-cases (try_all w.answers o).delivered) [
    | inl failed ↦
        let t = try_all w.answers o in
        let o' = w.meanwhile o in
        let (result, is, status, kept) =
          given_up w r "failed" t.last_http_status t.last_error o'.max_retries o' ok in
        rw (has, good, going, deliver_reply)
          (rw (failed, conclude) (result, is, inr (inl (status, kept, refl))))
    | inr (s, delivered) ↦
        rw (has, good, going, deliver_reply)
          (rw (delivered, conclude) (_, refl, inl (refl, refl, λ e. absurd (cc))))
  ]
]
