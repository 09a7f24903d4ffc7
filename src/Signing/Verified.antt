-- ===== src/Signing/Verified.antt =====
-- What a verified signature says, and for how long.
use mathlib.Core.List.{Memᴰ}
use agent_wake.Prelude.{
  ℕ, ◌+◌, ◌*◌, ◌≤◌, ◌<◌, ◌≡◌, ◌≢◌, refl, sym, ◌∙◌, ap, true, some, List, [], ◌∷◌, arith, inl, inr,
  Bool-cases, Option-cases,
}
use agent_wake.Json.{ℤ, pos, negsuc}
use agent_wake.Json.Number.{read_int}
use agent_wake.Ingest.Signature.{compare_digest}
use agent_wake.Ingest.Signature.RoundTrip.{compare_digest_iff}
use agent_wake.Signing.{
  split, distance, read_fields, field_value, time_name, digest_name, signing_input, matched,
  verify_at, verify_fields, verify_body,
}

distance_triangle : (a b c : ℤ) → distance a c ≤ distance a b + distance c b
unfolding distance
distance_triangle (pos a) (pos b) (pos c) = omega arith
distance_triangle (pos a) (pos b) (negsuc c) = omega arith
distance_triangle (pos a) (negsuc b) (pos c) = omega arith
distance_triangle (pos a) (negsuc b) (negsuc c) = omega arith
distance_triangle (negsuc a) (pos b) (pos c) = omega arith
distance_triangle (negsuc a) (pos b) (negsuc c) = omega arith
distance_triangle (negsuc a) (negsuc b) (pos c) = omega arith
distance_triangle (negsuc a) (negsuc b) (negsuc c) = omega arith

-- the field `t` of a header is a number, and `v1` is a text
pub record Carries (header : List ℕ) (t : ℤ) (supplied : List ℕ) : Type 0 where
  pub fields : List (List ℕ × List ℕ)
  pub read : read_fields (split 44 header) [] ≡ some fields
  pub time : List ℕ
  pub has_time : field_value time_name fields ≡ some time
  pub is_number : read_int time ≡ some t
  pub has_digest : field_value digest_name fields ≡ some supplied

-- a digest that matches is the one under one of the keys
matched-Mem :
    (hmac : List ℕ → List ℕ → List ℕ) (input : List ℕ) (keys : List (List ℕ)) (supplied : List ℕ)
    → matched hmac input keys supplied ≡ true
    → (key : List ℕ) × Memᴰ key keys × (hmac key input ≡ supplied)
unfolding matched
matched-Mem hmac input [] supplied h = absurd (cc)
matched-Mem hmac input (key ∷ keys) supplied h =
    elim (Bool-cases (compare_digest (hmac key input) supplied)) [
      | inl y ↦ (key, Memᴰ.head refl, compare_digest_iff (hmac key input) supplied y)
      | inr n ↦
          let (k, m, e) = matched-Mem hmac input keys supplied (rw n at h) in (k, Memᴰ.tail m, e)
    ]

-- a header carries one time
Carries-time :
    (header : List ℕ) (t t' : ℤ) (s s' : List ℕ)
    → Carries header t s
    → Carries header t' s'
    → t ≡ t'
Carries-time header t t' s s' c c' =
    let fields : c.fields ≡ c'.fields = cc (c.read, c'.read) in
    let time : c.time ≡ c'.time = cc (fields, c.has_time, c'.has_time) in
    cc (time, c.is_number, c'.is_number)

module _ (sha256 : List ℕ → List ℕ) (hmac : List ℕ → List ℕ → List ℕ) where
  signed-verify_at :
      (body : List ℕ) (keys : List (List ℕ)) (now : ℤ) (window : ℕ) (supplied : List ℕ) (t : ℤ)
      → verify_at sha256 hmac body keys now window supplied t ≡ some true
      → (distance now t ≤ window)
        × ((key : List ℕ) × Memᴰ key keys
            × (hmac key (signing_input sha256 hmac t body) ≡ supplied))
  unfolding verify_at
  signed-verify_at body keys now window supplied t h = (
    ground arith,
    matched-Mem hmac (signing_input sha256 hmac t body) keys supplied (ground arith),
  )

  carried :
      (body : List ℕ) (keys : List (List ℕ)) (now t : ℤ) (window : ℕ) (header : List ℕ)
      (fields : List (List ℕ × List ℕ)) (time supplied : List ℕ)
      → read_fields (split 44 header) [] ≡ some fields
      → field_value time_name fields ≡ some time
      → read_int time ≡ some t
      → field_value digest_name fields ≡ some supplied
      → (distance now t ≤ window)
        × ((key : List ℕ) × Memᴰ key keys
            × (hmac key (signing_input sha256 hmac t body) ≡ supplied))
      → (t : ℤ) × (key : List ℕ) × Memᴰ key keys
        × (distance now t ≤ window)
        × Carries header t (hmac key (signing_input sha256 hmac t body))
  carried body keys now t window header fields time supplied read has_time is_number has_digest
        (near, (key, m, same)) =
      (
        t,
        key,
        m,
        near,
        record {
          fields = fields;
          read = read;
          time = time;
          has_time = has_time;
          is_number = is_number;
          has_digest = has_digest ∙ ap some (sym same);
        },
      )

  -- A verified header carries a time within the window, and the digest of that time and the body under
  -- one of the keys.
  pub verified_was_signed :
      (body header : List ℕ) (keys : List (List ℕ)) (now : ℤ) (window : ℕ)
      → verify_body sha256 hmac body header keys now window ≡ some true
      → (t : ℤ) × (key : List ℕ) × Memᴰ key keys
        × (distance now t ≤ window)
        × Carries header t (hmac key (signing_input sha256 hmac t body))
  unfolding verify_body verify_fields
  verified_was_signed body header [] now window h = absurd (cc)
  verified_was_signed body header (first ∷ keys) now window h =
      elim (Option-cases (read_fields (split 44 header) [])) [
        | inl bad ↦ absurd (ground arith)
        | inr (fields, read) ↦ elim (Option-cases (field_value time_name fields)) [
          | inl no_time ↦ absurd (ground arith)
          | inr (time, has_time) ↦ elim (Option-cases (field_value digest_name fields)) [
            | inl no_digest ↦ absurd (ground arith)
            | inr (supplied, has_digest) ↦ elim (Option-cases (read_int time)) [
              | inl no_number ↦ absurd (ground arith)
              | inr (t, is_number) ↦
                  let valid =
                    signed-verify_at body (first ∷ keys) now window supplied t (ground arith) in
                  carried body (first ∷ keys) now t window header fields time supplied read has_time
                    is_number has_digest valid
            ]
          ]
        ]
      ]

  -- A signature cannot be replayed for ever: after more than twice the window from a check that it
  -- passed, its header passes none, whatever the body and the keys are.
  pub signature_expires :
      (body body' header : List ℕ) (keys keys' : List (List ℕ)) (now now' : ℤ) (window : ℕ)
      → verify_body sha256 hmac body header keys now window ≡ some true
      → 2 * window < distance now now'
      → verify_body sha256 hmac body' header keys' now' window ≢ some true
  signature_expires body body' header keys keys' now now' window h late again =
      let (t, key, m, near, carries) = verified_was_signed body header keys now window h in
      let (t', key', m', near', carries') =
        verified_was_signed body' header keys' now' window again in
      let same = Carries-time header t t' _ _ carries carries' in
      let close : distance now' t ≤ window = rw same near' in
      let far = distance_triangle now t now' in absurd (omega arith)
