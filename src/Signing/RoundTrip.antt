-- ===== src/Signing/RoundTrip.antt =====
-- A callback that `sign_body` signs is one that `verify_body` accepts.
use mathlib.Core.Path.{subst}
use agent_wake.Prelude.{
  ℕ, suc, ◌≤◌, ◌≡◌, refl, ◌∙◌, ap, Bool, true, false, ◌&&◌, ◌||◌, some, List, [], ◌∷◌, ◌++◌, arith,
  inl, inr, List-cases, leb, eqb, any, All,
}
use agent_wake.Json.{ℤ, pos, negsuc}
use agent_wake.Json.Number.{show_int, digits, is_digit}
use agent_wake.Json.Number.Shown.{digits-IsDigit, digits-front, read_int-show_int}
use agent_wake.Ingest.Signature.{compare_digest, strip, strip_left, strip_right, is_space}
use agent_wake.Ingest.Signature.RoundTrip.{compare_digest_refl, strip_left_solid, strip_right_solid}
use agent_wake.Signing.{
  split, partition, is_empty, distance, read_fields, field_value, time_name, digest_name,
  is_signature, signing_input, is_ascii, matched, verify_at, verify_fields, verify_body, sign_body,
}

-- a character that neither `strip` nor `split` takes for its own
abbrev pub IsPlain : ℕ → Type 0
IsPlain c = (is_space c ≡ false) × (eqb c 44 ≡ false)

All-solid : (s : List ℕ) → All IsPlain s → All (λ c. is_space c ≡ false) s
All-solid [] h = tt
All-solid (c ∷ s) h = (h.0.0, All-solid s h.1)

strip-IsPlain : (s : List ℕ) → All IsPlain s → strip s ≡ s
unfolding strip
strip-IsPlain s h =
    let solid = All-solid s h in
    ap strip_right (strip_left_solid s solid) ∙ strip_right_solid s solid

split-IsPlain : (s : List ℕ) → All IsPlain s → split 44 s ≡ s ∷ []
unfolding split
split-IsPlain [] h = refl
split-IsPlain (c ∷ s) h = rw (h.0.1, split-IsPlain s h.1) refl

split_comma : (s rest : List ℕ) → All IsPlain s → split 44 (s ++ 44 ∷ rest) ≡ s ∷ split 44 rest
unfolding split
split_comma [] rest h = refl
split_comma (c ∷ s) rest h = rw (h.0.1, split_comma s rest h.1) refl

digit-IsPlain : (s : List ℕ) → All (λ c. is_digit c ≡ true) s → All IsPlain s
unfolding is_space
digit-IsPlain [] h = tt
digit-IsPlain (c ∷ s) h = ((ground arith, ground arith), digit-IsPlain s h.1)

show_int-IsPlain : (t : ℤ) → All IsPlain (show_int t)
unfolding show_int is_space
show_int-IsPlain (pos n) = digit-IsPlain (digits n n) (digits-IsDigit n n)
show_int-IsPlain (negsuc n) =
    ((refl, refl), digit-IsPlain (digits (suc n) (suc n)) (digits-IsDigit (suc n) (suc n)))

show_int-front : (t : ℤ) → is_empty (show_int t) ≡ false
unfolding show_int
show_int-front (pos n) = let (c, s, e) = digits-front n n in ap is_empty e
show_int-front (negsuc n) = refl

-- a digit of `hexdigest`
abbrev pub is_hex_digit : ℕ → Bool
is_hex_digit c = leb 48 c && leb c 57 || leb 97 c && leb c 102

-- what `hexdigest` returns: digits, and not none
abbrev pub IsHexDigest : List ℕ → Type 0
IsHexDigest s = (is_empty s ≡ false) × All (λ c. is_hex_digit c ≡ true) s

hex-IsPlain : (s : List ℕ) → All (λ c. is_hex_digit c ≡ true) s → All IsPlain s
unfolding is_space
hex-IsPlain [] h = tt
hex-IsPlain (c ∷ s) h = ((ground arith, ground arith), hex-IsPlain s h.1)

hex-is_ascii : (s : List ℕ) → All (λ c. is_hex_digit c ≡ true) s → is_ascii s ≡ true
unfolding is_ascii
hex-is_ascii [] h = refl
hex-is_ascii (c ∷ s) h = let tail = hex-is_ascii s h.1 in ground arith

-- the two items of a header
abbrev time_item : List ℕ → List ℕ
time_item t = 116 ∷ 61 ∷ t

abbrev digest_item : List ℕ → List ℕ
digest_item d = 118 ∷ 49 ∷ 61 ∷ d

abbrev both : List ℕ → List ℕ → List (List ℕ × List ℕ)
both t d = (time_name, t) ∷ (digest_name, d) ∷ []

module _ (t d : List ℕ) (plain_t : All IsPlain t) (plain_d : All IsPlain d) where
  split_header : split 44 (time_item t ++ 44 ∷ digest_item d) ≡ time_item t ∷ digest_item d ∷ []
  unfolding is_space
  split_header =
      split_comma (time_item t) (digest_item d) ((refl, refl), ((refl, refl), plain_t))
      ∙ ap (λ l. time_item t ∷ l)
          (split-IsPlain (digest_item d) ((refl, refl), ((refl, refl), ((refl, refl), plain_d))))

  read_header :
      is_empty t ≡ false
      → is_empty d ≡ false
      → read_fields (time_item t ∷ digest_item d ∷ []) [] ≡ some (both t d)
  unfolding read_fields partition is_space compare_digest any strip_right strip_left
  read_header some_t some_d =
      rw
        (
          strip-IsPlain (time_item t) ((refl, refl), ((refl, refl), plain_t)),
          strip-IsPlain (digest_item d) ((refl, refl), ((refl, refl), ((refl, refl), plain_d))),
          some_t,
          some_d,
        )
        refl

matched-append :
    (hmac : List ℕ → List ℕ → List ℕ) (input key : List ℕ) (before after : List (List ℕ))
    → matched hmac input (before ++ key ∷ after) (hmac key input) ≡ true
unfolding matched
matched-append hmac input key [] after = rw (compare_digest_refl (hmac key input)) refl
matched-append hmac input key (k ∷ before) after =
    ground (arith, matched-append hmac input key before after)

module _ (sha256 : List ℕ → List ℕ) (hmac : List ℕ → List ℕ → List ℕ) where
  verify-both :
      (body : List ℕ) (keys : List (List ℕ)) (now t : ℤ) (window : ℕ) (d : List ℕ)
      → distance now t ≤ window
      → is_ascii d ≡ true
      → matched hmac (signing_input sha256 hmac t body) keys d ≡ true
      → verify_fields sha256 hmac body (both (show_int t) d) keys now window ≡ some true
  unfolding verify_fields field_value compare_digest verify_at
  verify-both body keys now t window d near plain match =
      rw (read_int-show_int t, verify_fields) (unfold verify_at in ground arith)

  verify-keys :
      (body : List ℕ) (k : List ℕ) (keys : List (List ℕ)) (now t : ℤ) (window : ℕ) (d : List ℕ)
      → IsHexDigest d
      → distance now t ≤ window
      → matched hmac (signing_input sha256 hmac t body) (k ∷ keys) d ≡ true
      → verify_body sha256 hmac body
          (time_item (show_int t) ++ 44 ∷ digest_item d)
          (k ∷ keys)
          now
          window
        ≡ some true
  unfolding verify_body is_signature compare_digest any
  verify-keys body k keys now t window d (some_d, hex) near match =
      rw
        (
          split_header (show_int t) d (show_int-IsPlain t) (hex-IsPlain d hex),
          read_header (show_int t) d (show_int-IsPlain t) (hex-IsPlain d hex) (show_int-front t)
              some_d,
        )
        (verify-both body (k ∷ keys) now t window d near (hex-is_ascii d hex) match)

  -- If the HMAC gives hexadecimal digits, what `sign_body` makes of a body is accepted with it: by every
  -- list of keys that the signing key is in, as it is while the keys rotate, from the window before the
  -- time of the signature to the window after it.
  pub verify-sign_body :
      (body key : List ℕ) (older before after : List (List ℕ)) (now t : ℤ) (window : ℕ)
      (header : List ℕ)
      → IsHexDigest (hmac key (signing_input sha256 hmac t body))
      → distance now t ≤ window
      → sign_body sha256 hmac body (key ∷ older) t ≡ some header
      → verify_body sha256 hmac body header (before ++ key ∷ after) now window ≡ some true
  verify-sign_body body key older before after now t window header hex near signed =
      let input = signing_input sha256 hmac t body in
      let header_is : time_item (show_int t) ++ 44 ∷ digest_item (hmac key input) ≡ header =
        unfold sign_body in cc signed in
      subst (λ h. verify_body sha256 hmac body h (before ++ key ∷ after) now window ≡ some true)
        header_is
        (elim (List-cases before) [
          | inl none_newer ↦ rw none_newer (
              verify-keys body key after now t window (hmac key input) hex near
                (matched-append hmac input key [] after))
          | inr (k, newer, split) ↦ rw split (
              verify-keys body k (newer ++ key ∷ after) now t window (hmac key input) hex near
                (matched-append hmac input key (k ∷ newer) after))
        ])
