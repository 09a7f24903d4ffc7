-- ===== src/Cli/Redrive/Marked.antt =====
-- What a redrive does to the dead-letter table: it marks one letter, or leaves the table alone.
use mathlib.Core.Path.{subst}
use agent_wake.Prelude.{
  ℕ, ◌≤◌, String, ◌≡◌, refl, sym, ap, ◌∙◌, ◌⊎◌, inl, inr, Bool, true, false, Option, none, some,
  List, [], ◌∷◌, ◌==◌, arith, eq_iff, if◌then◌else◌, map, keep, find, length, Bool-cases,
  Option-cases,
}
use agent_wake.Json.{Fields, get, as_obj}
use agent_wake.Store.State.{WakeStore, DeadLetter, column_is}
use agent_wake.Store.Queue.{enqueue_pending}
use agent_wake.Store.DeadLetters.{get_dead_letter, mark_redriven, dead_letter_count, unredriven}
use agent_wake.Delivery.{Ended, ended, cancelled_error}
use agent_wake.Outbox.{Replied, replied, raises}
use agent_wake.Cli.Redrive.{
  RedriveWorld, Outcome, succeeded, refused, interrupted, mark, mark_of, redrive_next_session,
  redriven_reply, finish_reply, redrive_reply, redriven_alert, finish_alert, redrive_alert,
  redrive_entry, redrive, delivery_error, is_empty,
}

-- the command ends well
pub is_success : Outcome → Bool
is_success (succeeded a) = true
is_success (refused c r) = false
is_success interrupted = false

-- The table is left alone and the command does not succeed, or one mark is made, as "ok" exactly if it
-- succeeds.
abbrev pub Marked : RedriveWorld → String → WakeStore → WakeStore × Outcome → Type 0
Marked w id st r =
    ((r.0.dead_letters ≡ st.dead_letters) × (is_success r.1 ≡ false))
    ⊎ ((error : Option String) × (r.0.dead_letters
          ≡ (mark_redriven w.mark_now id (mark_of (is_success r.1)) error st).dead_letters))

letters-enqueue :
    (now : ℕ) (event : Fields) (d : Option String) (st : WakeStore)
    → (enqueue_pending now event d st).0.dead_letters ≡ st.dead_letters
unfolding enqueue_pending
letters-enqueue now event d st = ground arith

success_if : (a c : String) (r b : Bool) → is_success (if b then succeeded a else refused c r) ≡ b
unfolding is_success
success_if a c r true = refl
success_if a c r false = refl

letters-mark :
    (w : RedriveWorld) (id : String) (ok : Bool) (error : Option String) (s st : WakeStore)
    → s.dead_letters ≡ st.dead_letters
    → (mark w id ok error s).dead_letters ≡ (mark w id ok error st).dead_letters
unfolding mark mark_redriven
letters-mark w id ok error s st h = rw h refl

module _ (w : RedriveWorld) (entry : DeadLetter) (st : WakeStore) where
  Marked-redrive_next_session : Marked w entry.id st (redrive_next_session w entry st)
  unfolding redrive_next_session mark
  Marked-redrive_next_session =
      let q = enqueue_pending w.enqueue_now entry.payload none st in
      inr (
        none,
        rw success_if (
            letters-mark w entry.id q.1 none q.0 st
              (letters-enqueue w.enqueue_now entry.payload none st)),
      )

  Marked-finish_reply : (r : Replied) → Marked w entry.id st (finish_reply w entry r st)
  unfolding finish_reply mark is_success
  Marked-finish_reply raises = inl (refl, refl)
  Marked-finish_reply (replied r) = inr (r.error, rw success_if refl)

  Marked-redrive_reply : (cfg : Fields) → Marked w entry.id st (redrive_reply w cfg entry st)
  unfolding redrive_reply
  Marked-redrive_reply cfg = Marked-finish_reply (redriven_reply w cfg entry.payload)

  Marked-finish_alert : (e : Ended) → Marked w entry.id st (finish_alert w entry e st)
  unfolding finish_alert mark is_success
  Marked-finish_alert cancelled_error = inl (refl, refl)
  Marked-finish_alert (ended status principal results) =
      inr (some (delivery_error status results), rw success_if refl)

  Marked-redrive_alert : (cfg : Fields) → Marked w entry.id st (redrive_alert w cfg entry st)
  unfolding redrive_alert is_success
  Marked-redrive_alert cfg = elim (Option-cases (as_obj (get "event" entry.payload))) [
    | inl gone ↦ rw (gone, redrive_alert) (inl (refl, refl))
    | inr (event, is) ↦
        rw (is, redrive_alert) (Marked-finish_alert (redriven_alert w cfg entry.payload event))
  ]

  Marked-redrive_entry : (cfg : Fields) → Marked w entry.id st (redrive_entry w cfg entry st)
  unfolding redrive_entry is_success
  Marked-redrive_entry cfg = elim (Bool-cases (entry.kind == "next_session")) [
    | inl queued ↦ rw queued Marked-redrive_next_session
    | inr n ↦ elim (Bool-cases (entry.kind == "reply")) [
      | inl is_reply ↦ elim (Bool-cases (is_empty cfg)) [
        | inl bare ↦ rw (n, is_reply, bare) (inl (refl, refl))
        | inr loaded ↦ rw (n, is_reply, loaded) (Marked-redrive_reply cfg)
      ]
      | inr m ↦ elim (Bool-cases (entry.kind == "human_delivery")) [
        | inr unknown ↦ rw (n, m, unknown) (inl (refl, refl))
        | inl alert ↦ elim (Bool-cases (is_empty cfg)) [
          | inl bare ↦ rw (n, m, alert, bare) (inl (refl, refl))
          | inr loaded ↦ rw (n, m, alert, loaded) (Marked-redrive_alert cfg)
        ]
      ]
    ]
  ]

find-test :
    (id : String) (ds : List DeadLetter) (d : DeadLetter)
    → find (λ x. x.id == id) ds ≡ some d
    → d.id ≡ id
unfolding find
find-test id [] d h = absurd (cc)
find-test id (x ∷ ds) d h = elim (Bool-cases (x.id == id)) [
  | inl y ↦
      let k : some x ≡ some d = rw y at h in
      let e : x ≡ d = cc in ap (λ z. z.id) (sym e) ∙ (eq_iff x.id id).0 y
  | inr n ↦ find-test id ds d (rw n at h)
]

pub entry-id :
    (id : String) (st : WakeStore) (d : DeadLetter) → get_dead_letter id st ≡ some d → d.id ≡ id
unfolding get_dead_letter
entry-id id st d h = find-test id st.dead_letters d h

pub Marked-redrive :
    (w : RedriveWorld) (cfg : Fields) (id : String) (st : WakeStore)
    → Marked w id st (redrive w cfg id st)
unfolding redrive is_success
Marked-redrive w cfg id st = elim (Option-cases (get_dead_letter id st)) [
  | inl gone ↦ rw (gone, redrive) (inl (refl, refl))
  | inr (entry, is) ↦
      rw (is, redrive)
        (subst (λ k. Marked w k st (redrive_entry w cfg entry st)) (entry-id id st entry is)
          (Marked-redrive_entry w entry st cfg))
]

count-map :
    (p : DeadLetter → Bool) (f : DeadLetter → DeadLetter)
    → ((d : DeadLetter) → p d ≡ true → p (f d) ≡ true)
    → (ds : List DeadLetter) → length (keep p ds) ≤ length (keep p (map f ds))
unfolding keep
count-map p f h [] = omega arith
count-map p f h (d ∷ ds) = elim (Bool-cases (p d)) [
  | inl y ↦ rw (y, h d y) (omega (arith, count-map p f h ds))
  | inr n ↦ rw n (elim (Bool-cases (p (f d))) [
    | inl y ↦ rw y (omega (arith, count-map p f h ds))
    | inr m ↦ rw m (count-map p f h ds)
  ])
]

-- a failed mark hides nothing
failed_stays :
    (now : ℕ) (id : String) (error : Option String) (st : WakeStore)
    → dead_letter_count false st ≤ dead_letter_count false (mark_redriven now id "failed" error st)
unfolding dead_letter_count mark_redriven unredriven column_is
failed_stays now id error st =
    count-map _ _ (λ d h. elim (Bool-cases (d.id == id)) [ inl y ↦ rw y refl | inr n ↦ rw n h ])
      st.dead_letters

same_count :
    (s st : WakeStore)
    → s.dead_letters ≡ st.dead_letters
    → dead_letter_count false s ≡ dead_letter_count false st
unfolding dead_letter_count
same_count s st h = rw h refl

-- A redrive makes at most one mark, on the letter that it names, and that is "ok" exactly if the command
-- succeeds; one that does not succeed takes no letter off the listing of those that are to be redriven.
pub redrive_marks :
    (w : RedriveWorld) (cfg : Fields) (id : String) (st : WakeStore)
    → Marked w id st (redrive w cfg id st)
      × (is_success (redrive w cfg id st).1 ≡ false
          → dead_letter_count false st ≤ dead_letter_count false (redrive w cfg id st).0)
redrive_marks w cfg id st = (
  Marked-redrive w cfg id st,
  λ bad. elim (Marked-redrive w cfg id st) [
    | inl (same, no_luck) ↦ let e = same_count (redrive w cfg id st).0 st same in omega (arith, e)
    | inr (error, marked) ↦
        let k : (redrive w cfg id st).0.dead_letters
            ≡ (mark_redriven w.mark_now id "failed" error st).dead_letters =
          rw bad at marked in
        let e =
          same_count (redrive w cfg id st).0 (mark_redriven w.mark_now id "failed" error st) k in
        omega (arith, e, failed_stays w.mark_now id error st)
  ],
)
