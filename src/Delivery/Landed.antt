-- ===== src/Delivery/Landed.antt =====
-- On which channels an alert lands, said by the answers of the channels alone.
use agent_wake.Prelude.{
  String, ◌≡◌, refl, sym, ap, ◌∙◌, map, keep, if◌then◌else◌, inl, inr, Bool, true, false, ◌&&◌, not,
  Option, some, List, [], ◌∷◌, ◌++◌, ◌==◌, arith, contains, Bool-cases,
}
use mathlib.Core.List.{append_assoc, append-nil}
use agent_wake.Delivery.Channels.{
  Answer, answered, raised, cancelled, ChannelResult, Progress, note_result, note_answer,
  try_channel, try_channels,
}
use agent_wake.Delivery.{start}

-- the channel answers that it delivered
unfoldable pub says_delivered : Answer → Bool
says_delivered (answered status error) = status == "delivered"
says_delivered (raised msg) = false
says_delivered cancelled = false

-- the channels of the results that are delivered
abbrev pub landed_in : List ChannelResult → List String
landed_in rs = map (λ r. r.channel) (keep (λ r. r.status == "delivered") rs)

landed_in-append :
    (rs : List ChannelResult) (r : ChannelResult)
    → landed_in (rs ++ r ∷ [])
      ≡ landed_in rs ++ (if r.status == "delivered" then r.channel ∷ [] else [])
unfolding keep
landed_in-append [] r = ground arith
landed_in-append (x ∷ rs) r = elim (Bool-cases (x.status == "delivered")) [
  | inl y ↦ rw y (ap (λ l. x.channel ∷ l) (landed_in-append rs r))
  | inr n ↦ rw n (landed_in-append rs r)
]

-- the answer that ends the loop
unfoldable pub is_cancel : Answer → Bool
is_cancel (answered status error) = false
is_cancel (raised msg) = false
is_cancel cancelled = true

module _ (answers : String → Answer) (adapters skip : List String) where
  -- the channel is tried
  abbrev pub is_tried : String → Bool
  is_tried k = not (contains skip k) && contains adapters k

  abbrev pub now_landed : String → List String
  now_landed k = if is_tried k && says_delivered (answers k) then k ∷ [] else []

  -- The channels among those of a principal that say, asked one after the other until the task is
  -- cancelled, that they delivered the alert.
  unfoldable pub reached : List String → List String
  unfolding is_cancel says_delivered
  reached [] = []
  reached (k ∷ ks) = if is_tried k && is_cancel (answers k) then [] else now_landed k ++ reached ks

  module _ (principal : String) where
    results-note_result :
        (k status : String) (e : Option String) (p : Progress)
        → ((note_result principal k status e p).results
            ≡ p.results ++ record { channel = k; status = status; error = e } ∷ [])
          × ((note_result principal k status e p).is_cancelled ≡ p.is_cancelled)
    unfolding note_result
    results-note_result k status e p = elim (Bool-cases (status == "delivered")) [
      | inl y ↦ rw y (refl, refl)
      | inr n ↦ rw n (refl, refl)
    ]

    landed-note_result :
        (k status : String) (e : Option String) (p : Progress)
        → landed_in (note_result principal k status e p).results
          ≡ landed_in p.results ++ (if status == "delivered" then k ∷ [] else [])
    landed-note_result k status e p =
        ap landed_in (results-note_result k status e p).0 ∙ landed_in-append p.results _

    landed-note_answer :
        (k : String) (a : Answer) (p : Progress)
        → is_cancel a ≡ false
        → (landed_in (note_answer principal k a p).results
            ≡ landed_in p.results ++ (if says_delivered a then k ∷ [] else []))
          × ((note_answer principal k a p).is_cancelled ≡ p.is_cancelled)
    unfolding note_answer says_delivered is_cancel
    landed-note_answer k (answered status e) p go =
        (landed-note_result k status e p, (results-note_result k status e p).1)
    landed-note_answer k (raised msg) p go = (
      landed-note_result k "failed" (some msg) p,
      (results-note_result k "failed" (some msg) p).1,
    )
    landed-note_answer k cancelled p go = absurd (cc)

    landed-try_channel :
        (k : String) (p : Progress)
        → (is_tried k && is_cancel (answers k)) ≡ false
        → (landed_in (try_channel answers adapters skip principal k p).results
            ≡ landed_in p.results ++ now_landed k)
          × ((try_channel answers adapters skip principal k p).is_cancelled ≡ p.is_cancelled)
    unfolding try_channel
    landed-try_channel k p go = elim (Bool-cases (contains skip k)) [
      | inl skipped ↦ rw skipped (landed_in-append p.results _, refl)
      | inr asked ↦ elim (Bool-cases (contains adapters k)) [
        | inl there ↦
            rw (asked, there) (landed-note_answer k (answers k) p (rw (asked, there) at go))
        | inr missing ↦
            rw (asked, missing)
              (
                landed-note_result k "failed" (some "no adapter") p,
                (results-note_result k "failed" (some "no adapter") p).1,
              )
      ]
    ]

    cancel-note_answer :
        (k : String) (a : Answer) (p : Progress)
        → is_cancel a ≡ true
        → note_answer principal k a p ≡ record p { is_cancelled = true }
    unfolding note_answer is_cancel
    cancel-note_answer k (answered status e) p h = absurd (cc)
    cancel-note_answer k (raised msg) p h = absurd (cc)
    cancel-note_answer k cancelled p h = refl

    landed-cancel :
        (k : String) (p : Progress)
        → (is_tried k && is_cancel (answers k)) ≡ true
        → try_channel answers adapters skip principal k p ≡ record p { is_cancelled = true }
    unfolding try_channel
    landed-cancel k p stop = elim (Bool-cases (contains skip k)) [
      | inl skipped ↦ absurd (let b : false ≡ true = rw skipped at stop in cc)
      | inr asked ↦ elim (Bool-cases (contains adapters k)) [
        | inl there ↦
            rw (asked, there) (cancel-note_answer k (answers k) p (rw (asked, there) at stop))
        | inr missing ↦ absurd (let b : false ≡ true = rw (asked, missing) at stop in cc)
      ]
    ]

    pub landed-try_channels :
        (ks : List String) (p : Progress)
        → p.is_cancelled ≡ false
        → landed_in (try_channels answers adapters skip principal ks p).results
          ≡ landed_in p.results ++ reached ks
    unfolding try_channels reached
    landed-try_channels [] p start = sym (append-nil (landed_in p.results))
    landed-try_channels (k ∷ ks) p start =
        let p' = try_channel answers adapters skip principal k p in
        elim (Bool-cases (is_tried k && is_cancel (answers k))) [
          | inl stop ↦
              let e = landed-cancel k p stop in
              let stopped : p'.is_cancelled ≡ true = ap (λ x. x.is_cancelled) e in
              rw (stop, stopped)
                (ap (λ x. landed_in x.results) e ∙ sym (append-nil (landed_in p.results)))
          | inr go ↦
              let (lands_here, calm) = landed-try_channel k p go in
              let going : p'.is_cancelled ≡ false = calm ∙ start in
              rw (go, going)
                (landed-try_channels ks p' going
                  ∙ ap (λ l. l ++ reached ks) lands_here
                  ∙ append_assoc (landed_in p.results) (now_landed k) (reached ks))
        ]
