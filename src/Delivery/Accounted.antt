-- ===== src/Delivery/Accounted.antt =====
-- An alert lands on every channel, or leaves a dead letter that says where it landed.
use agent_wake.Prelude.{
  ℕ, String, ◌≡◌, refl, ap, ◌∙◌, keep, ◌⊎◌, inl, inr, Bool, true, false, ◌&&◌, ◌||◌, not, Option,
  some, List, [], ◌∷◌, ◌++◌, ◌==◌, arith, eq_iff, contains, any, All, Bool-cases,
}
use agent_wake.Json.{Fields, text_at}
use agent_wake.Store.State.{WakeStore}
use agent_wake.Store.DeadLetters.{insert_dead_letter}
use agent_wake.Delivery.Channels.{
  Answer, answered, raised, cancelled, ChannelResult, Progress, note_result, note_answer,
  try_channel, try_channels, has_attempted, overall_status,
}
use agent_wake.Delivery.Landed.{says_delivered, reached, landed-try_channels}
use agent_wake.Delivery.{
  HumanDelivery, DeliveryWorld, progress, cancel_error, failure_error, landed, alert_payload,
  delivery_letter, ended, finish, start,
}

-- no channel answers with the status of a skipped one
abbrev pub IsHonest : Answer → Type 0
IsHonest (answered status error) = status == "skipped" ≡ false
IsHonest (raised msg) = Unit
IsHonest cancelled = Unit

any-last :
    (rs : List ChannelResult) (r : ChannelResult)
    → has_attempted (rs ++ r ∷ []) ≡ (has_attempted rs || not (r.status == "skipped"))
unfolding has_attempted any
any-last [] r = ground arith
any-last (x ∷ rs) r = ground (arith, any-last rs r)

-- a failure is an attempt
abbrev Noted : Progress → Type 0
Noted p = p.any_failed ≡ true → has_attempted p.results ≡ true

or_right : (a : Bool) → a || true ≡ true
or_right a = ground arith

or_last : (a b : Bool) → a ≡ true → a || b ≡ true
or_last a b h = ground arith

module _ (answers : String → Answer) (honest : (k : String) → IsHonest (answers k))
    (adapters skip : List String) (principal : String) where
  -- the alert was there before, or lands now
  abbrev pub lands : String → Bool
  lands k = contains skip k || (contains adapters k && says_delivered (answers k))

  -- what a round without failure and cancellation shows
  abbrev Clean : String → Progress → Progress → Type 0
  Clean k p p' =
      p'.any_failed ≡ false → p'.is_cancelled ≡ false → (p.any_failed ≡ false) × (lands k ≡ true)

  Noted-note_result :
      (k status : String) (e : Option String) (p : Progress)
      → status == "skipped" ≡ false
      → Noted p
      → Noted (note_result principal k status e p)
  unfolding note_result
  Noted-note_result k status e p h n = elim (Bool-cases (status == "delivered")) [
    | inl y ↦ λ f. rw (y, any-last, h) (or_right (has_attempted p.results))
    | inr no_luck ↦ λ f. rw (no_luck, any-last, h) (or_right (has_attempted p.results))
  ]

  Noted-note_answer :
      (k : String) (a : Answer) (p : Progress)
      → IsHonest a
      → Noted p
      → Noted (note_answer principal k a p)
  unfolding note_answer
  Noted-note_answer k (answered status e) p h n = Noted-note_result k status e p h n
  Noted-note_answer k (raised msg) p h n = Noted-note_result k "failed" (some msg) p refl n
  Noted-note_answer k cancelled p h n = n

  Noted-try_channel :
      (k : String) (p : Progress)
      → Noted p
      → Noted (try_channel answers adapters skip principal k p)
  unfolding try_channel
  Noted-try_channel k p n = elim (Bool-cases (contains skip k)) [
    | inl skipped ↦
        λ f. rw (skipped, any-last) (or_last (has_attempted p.results) _ (n (rw skipped at f)))
    | inr asked ↦ elim (Bool-cases (contains adapters k)) [
      | inl there ↦ rw (asked, there) (Noted-note_answer k (answers k) p (honest k) n)
      | inr missing ↦
          rw (asked, missing) (Noted-note_result k "failed" (some "no adapter") p refl n)
    ]
  ]

  Clean-note_result :
      (k status : String) (e : Option String) (p : Progress)
      → (note_result principal k status e p).any_failed ≡ false
      → (p.any_failed ≡ false) × (status == "delivered" ≡ true)
  unfolding note_result
  Clean-note_result k status e p h = ground arith

  Clean-note_answer :
      (k : String) (a : Answer) (p : Progress)
      → (note_answer principal k a p).any_failed ≡ false
      → (note_answer principal k a p).is_cancelled ≡ false
      → (p.any_failed ≡ false) × (says_delivered a ≡ true)
  unfolding note_answer says_delivered
  Clean-note_answer k (answered status e) p h c = Clean-note_result k status e p h
  Clean-note_answer k (raised msg) p h c =
      absurd (ground (arith, Clean-note_result k "failed" (some msg) p h))
  Clean-note_answer k cancelled p h c = absurd (cc)

  Clean-try_channel :
      (k : String) (p : Progress) → Clean k p (try_channel answers adapters skip principal k p)
  unfolding try_channel
  Clean-try_channel k p = elim (Bool-cases (contains skip k)) [
    | inl skipped ↦ λ h c. rw skipped (rw skipped at h, refl)
    | inr asked ↦ elim (Bool-cases (contains adapters k)) [
      | inl there ↦ λ h c.
          let (before, said) =
            Clean-note_answer k (answers k) p (rw (asked, there) at h) (rw (asked, there) at c) in
          (before, rw (asked, there, said) refl)
      | inr missing ↦ λ h c. absurd (
          ground
            (arith, Clean-note_result k "failed" (some "no adapter") p (rw (asked, missing) at h)))
    ]
  ]

  Noted-try_channels :
      (ks : List String) (p : Progress)
      → Noted p
      → Noted (try_channels answers adapters skip principal ks p)
  unfolding try_channels
  Noted-try_channels [] p n = n
  Noted-try_channels (k ∷ ks) p n =
      let p' = try_channel answers adapters skip principal k p in
      elim (Bool-cases p'.is_cancelled) [
        | inl stop ↦ rw stop (Noted-try_channel k p n)
        | inr go ↦ rw go (Noted-try_channels ks p' (Noted-try_channel k p n))
      ]

  lands-try_channels :
      (ks : List String) (p : Progress)
      → (try_channels answers adapters skip principal ks p).any_failed ≡ false
      → (try_channels answers adapters skip principal ks p).is_cancelled ≡ false
      → (p.any_failed ≡ false) × All (λ k. lands k ≡ true) ks
  unfolding try_channels
  lands-try_channels [] p h c = (h, tt)
  lands-try_channels (k ∷ ks) p h c =
      let p' = try_channel answers adapters skip principal k p in
      elim (Bool-cases p'.is_cancelled) [
        | inl stop ↦ absurd (ground (arith, stop, c))
        | inr go ↦
            let (clean, rest) = lands-try_channels ks p' (rw go at h) (rw go at c) in
            let (before, here) = Clean-try_channel k p clean go in (before, (here, rest))
      ]

delivered-any_failed :
    (p : Progress) → Noted p → overall_status p == "delivered" ≡ true → p.any_failed ≡ false
unfolding overall_status
delivered-any_failed p n h = elim (Bool-cases p.any_failed) [
  | inr clean ↦ clean
  | inl bad ↦ absurd (elim (Bool-cases p.any_delivered) [
    | inl some_landed ↦ let k : false ≡ true = rw (n bad, some_landed, bad) at h in cc
    | inr none_landed ↦ let k : false ≡ true = rw (n bad, none_landed) at h in cc
  ])
]

store-delivery_letter :
    (id : String) (at : ℕ) (event : Fields) (principal error : String) (names : List String)
    (d : HumanDelivery) (st : WakeStore)
    → d.store ≡ some st
    → (delivery_letter false id at event principal error names d).store
      ≡ some (
          insert_dead_letter id at "human_delivery"
            (text_at "source" event)
            (text_at "event_id" event)
            (alert_payload event principal names)
            (some error)
            1
            st)
unfolding delivery_letter
store-delivery_letter id at event principal error names d st has = rw has refl

-- If there is a store, which takes its writes, and no channel answers with the status of a skipped one, a
-- delivery to a principal's channels ends in one of two ways. Either
-- its status is `delivered`, and each channel was skipped, since the alert had landed there before, or
-- has an adapter that delivered it now; or there is one more dead letter of the event, and its payload
-- names, for the next attempt to skip, the channels where it had landed before and those that, asked one
-- after the other up to a cancellation, answered now that they delivered it.
pub alert_accounted :
    (w : DeliveryWorld) (event : Fields) (skip : List String) (principal : String)
    (kinds : List String) (d : HumanDelivery) (st : WakeStore)
    → ((k : String) → IsHonest (w.answers k))
    → w.write_fails ≡ false
    → d.store ≡ some st
    → let p = progress w skip principal kinds d in
      let s = finish w event skip principal p d in
      ((s.1 ≡ ended "delivered" (some principal) p.results)
        × (s.0.store ≡ some st)
        × All
            (λ k.
              (contains skip k || (contains d.adapters k && says_delivered (w.answers k))) ≡ true)
            kinds)
      ⊎ ((error : String) × (s.0.store
            ≡ some (
                insert_dead_letter w.dead_letter_id w.now "human_delivery"
                  (text_at "source" event)
                  (text_at "event_id" event)
                  (alert_payload event principal (reached w.answers d.adapters skip kinds ++ skip))
                  (some error)
                  1
                  st)))
unfolding finish progress landed keep
alert_accounted w event skip principal kinds d st honest ok has =
    let p = progress w skip principal kinds d in
    let d' = record d { health = p.progress_health } in
    let names : landed skip p ≡ reached w.answers d.adapters skip kinds ++ skip =
      ap (λ l. l ++ skip)
        (landed-try_channels w.answers d.adapters skip principal kinds (start d.health) refl) in
    let letter = λ (error : String).
      store-delivery_letter w.dead_letter_id w.now event principal error (landed skip p) d' st has
      ∙ ap
          (λ l. some (
            insert_dead_letter w.dead_letter_id w.now "human_delivery" (text_at "source" event)
              (text_at "event_id" event) (alert_payload event principal l) (some error) 1 st))
          names in
    elim (Bool-cases p.is_cancelled) [
      | inl stop ↦
          inr (cancel_error skip p, rw (stop, finish) (rw ok (letter (cancel_error skip p))))
      | inr go ↦ elim (Bool-cases (overall_status p == "delivered")) [
        | inr bad ↦ inr (failure_error p, rw (go, bad, finish) (rw ok (letter (failure_error p))))
        | inl good ↦
            let clean =
              delivered-any_failed p
                (Noted-try_channels w.answers honest d.adapters skip principal kinds _
                  (λ f. absurd (cc)))
                good in
            inl (
              rw (go, good, finish)
                  (ap (λ t. ended t (some principal) p.results)
                    ((eq_iff (overall_status p) "delivered").0 good)),
              rw (go, good, finish) has,
              (lands-try_channels w.answers honest d.adapters skip principal kinds _ clean go).1,
            )
      ]
    ]
