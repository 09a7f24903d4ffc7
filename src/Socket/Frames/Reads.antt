-- ===== src/Socket/Frames/Reads.antt =====
-- A frame that passes the check has what its handler reads.
use mathlib.Core.Path.{subst⁻¹}
use agent_wake.Prelude.{
  String, ◌≡◌, refl, ap, ◌∙◌, inl, inr, false, Option, none, some, ◌==◌, eq_iff, Bool-cases,
  Option-cases,
}
use agent_wake.Json.{Json, Fields, str, obj, get, as_str}
use agent_wake.Outbox.{Reply}
use agent_wake.Socket.{reply, ack, nack, pong}
use agent_wake.Proto.{
  Verdict, ◌>>◌, guard, is_text, require_str, validate_reply, validate_ack, validate_nack,
  validate_frame, validator,
}
use agent_wake.Socket.Frames.{
  parsed, Received, ended, missing_field, handled, ignored, read_reply, sort_frame, receive,
}

-- a sequence of checks passes if each does
sound-both : (a b : Verdict) → (a >> b) ≡ none → (a ≡ none) × (b ≡ none)
sound-both none b h = (refl, h)
sound-both (some e) b h = absurd (cc)

text-guard :
    (v : Option Json) → guard (is_text v) "bad_frame" ≡ none → (s : String) × (v ≡ some (str s))
text-guard none h = absurd (cc)
text-guard (some (str s)) h = (s, refl)
text-guard (some v) h = absurd (cc)

text-there :
    (frame : Fields) (k : String)
    → require_str frame k ≡ none
    → (s : String) × (get k frame ≡ some (str s))
unfolding require_str
text-there frame k h = text-guard (get k frame) h

-- The reply that is read holds the texts of the frame.
abbrev pub Reads : Fields → Reply → Type 0
Reads frame r =
    (get "source" frame ≡ some (str r.source))
    × (get "reply_id" frame ≡ some (str r.reply_id))
    × (get "in_reply_to" frame ≡ some (str r.in_reply_to))
    × (get "content" frame ≡ some (str r.content))
    × (r.reply_destination ≡ as_str (get "destination" frame))

pub read_reply-Reads :
    (frame : Fields)
    → validate_reply frame ≡ none
    → (r : Reply) × (read_reply frame ≡ some r) × Reads frame r
unfolding validate_reply read_reply as_str
read_reply-Reads frame h =
    let (a, h1) = sound-both (require_str frame "reply_id") _ h in
    let (b, h2) = sound-both (require_str frame "source") _ h1 in
    let (c, h3) = sound-both (require_str frame "in_reply_to") _ h2 in
    let (d, h4) = sound-both (require_str frame "content") _ h3 in
    let (reply_id, ea) = text-there frame "reply_id" a in
    let (source, eb) = text-there frame "source" b in
    let (in_reply_to, ec) = text-there frame "in_reply_to" c in
    let (content, ed) = text-there frame "content" d in
    (
      record {
        source = source;
        reply_id = reply_id;
        in_reply_to = in_reply_to;
        content = content;
        reply_destination = as_str (get "destination" frame);
      },
      rw (ea, eb, ec, ed) refl,
      (eb, ea, ec, ed, refl),
    )

-- Whether a line is handled as the frame of a type: what it is read from, and the fields that the handler
-- indexes, are those of the frame.
abbrev pub Faithful : Fields → Received → Type 0
Faithful frame (handled (reply r)) = (get "type" frame ≡ some (str "reply")) × Reads frame r
Faithful frame (handled (ack i)) =
    (get "type" frame ≡ some (str "ack")) × (get "ack_id" frame ≡ some (str i))
Faithful frame (handled (nack i)) =
    (get "type" frame ≡ some (str "nack")) × (get "ack_id" frame ≡ some (str i))
Faithful frame (handled pong) = get "type" frame ≡ some (str "pong")
Faithful frame missing_field = ⊥
Faithful frame ignored = Unit
Faithful frame (ended err) = Unit

Sorted : Fields → String → Type 0
Sorted frame ftype =
    get "type" frame ≡ some (str ftype)
    → validator ftype frame ≡ none
    → Faithful frame (sort_frame ftype frame)

module _ (frame : Fields) where
  Sorted-reply : Sorted frame "reply"
  unfolding Sorted sort_frame validator
  Sorted-reply t h = let (r, read, fields) = read_reply-Reads frame h in rw read (t, fields)

  Sorted-ack : Sorted frame "ack"
  unfolding Sorted sort_frame validator validate_ack as_str
  Sorted-ack t h = let (i, e) = text-there frame "ack_id" h in rw e (t, refl)

  Sorted-nack : Sorted frame "nack"
  unfolding Sorted sort_frame validator validate_nack as_str
  Sorted-nack t h =
      let (i, e) = text-there frame "ack_id" (sound-both (require_str frame "ack_id") _ h).0 in
      rw e (t, refl)

  Sorted-other :
      (ftype : String)
      → (ftype == "reply") ≡ false
      → (ftype == "ack") ≡ false
      → (ftype == "nack") ≡ false
      → Sorted frame ftype
  unfolding Sorted sort_frame
  Sorted-other ftype a b c t h = elim (Bool-cases (ftype == "pong")) [
    | inl y ↦ rw (a, b, c, y) (t ∙ ap (λ s. some (str s)) ((eq_iff ftype "pong").0 y))
    | inr n ↦ rw (a, b, c, n) tt
  ]

  Sorted-any : (ftype : String) → Sorted frame ftype
  Sorted-any ftype = elim (Bool-cases (ftype == "reply")) [
    | inl y ↦ subst⁻¹ (Sorted frame) ((eq_iff ftype "reply").0 y) Sorted-reply
    | inr a ↦ elim (Bool-cases (ftype == "ack")) [
      | inl y ↦ subst⁻¹ (Sorted frame) ((eq_iff ftype "ack").0 y) Sorted-ack
      | inr b ↦ elim (Bool-cases (ftype == "nack")) [
        | inl y ↦ subst⁻¹ (Sorted frame) ((eq_iff ftype "nack").0 y) Sorted-nack
        | inr c ↦ Sorted-other ftype a b c
      ]
    ]
  ]

as_str-text : (v : Option Json) (s : String) → as_str v ≡ some s → v ≡ some (str s)
unfolding as_str
as_str-text (some (str t)) s h = ap (λ o. elim o [ none ↦ none | some x ↦ some (str x) ]) h
as_str-text none s h = absurd (cc)
as_str-text (some v) s h = absurd (cc)

-- Whatever document a line holds, a handler that the frame loop calls finds each field that it reads, as a
-- text, and is handed what the frame says; the branch of a reply for a missing field is never taken.
pub receive-Faithful : (frame : Fields) → Faithful frame (receive (parsed (obj frame)))
unfolding receive validate_frame
receive-Faithful frame =
    let back = λ (x : Received) (e : receive (parsed (obj frame)) ≡ x) (f : Faithful frame x).
      subst⁻¹ (Faithful frame) e f in
    elim (Option-cases (as_str (get "type" frame))) [
      | inl gone ↦ back (ended (some "bad_frame")) (rw (gone, receive) refl) tt
      | inr (ftype, is) ↦ elim (Option-cases (validator ftype frame)) [
        | inr (err, bad) ↦ back (ended (some err)) (rw (is, receive, bad) refl) tt
        | inl sound ↦ back (sort_frame ftype frame) (rw (is, receive, sound) (rw is refl)) (
            unfold Sorted in Sorted-any frame ftype (as_str-text (get "type" frame) ftype is) sound)
      ]
    ]
