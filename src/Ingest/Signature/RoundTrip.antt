-- ===== src/Ingest/Signature/RoundTrip.antt =====
-- What a verified header says about the body.
use agent_wake.Prelude.{
  ℕ, ◌+◌, ◌/◌, ◌%◌, ◌<◌, ◌≡◌, refl, ◌∙◌, ap, true, false, some, List, [], ◌∷◌, ◌++◌, arith,
  if◌then◌else◌, ltb, All, All-append, Option-cases, inl, inr,
}
use agent_wake.Ingest.Signature.{
  is_space, strip_left, strip_right, strip, behind, scheme, is_ascii_space, hex_value, byte_of,
  from_hex, compare_digest, header_digest, verify_signature, verify_signature_any,
}

-- `digest.hex()` of Python
hex_digit : ℕ → ℕ
hex_digit v = if ltb v 10 then v + 48 else v + 87

unfoldable pub to_hex : List ℕ → List ℕ
unfolding hex_digit
to_hex [] = []
to_hex (b ∷ s) = hex_digit (b / 16) ∷ hex_digit (b % 16) ∷ to_hex s

hex_value-digit : (v : ℕ) → v < 16 → hex_value (hex_digit v) ≡ some v
unfolding hex_value hex_digit
hex_value-digit v h = ground arith

hex_digit_not_space : (v : ℕ) → v < 16 → is_space (hex_digit v) ≡ false
unfolding is_space hex_digit
hex_digit_not_space v h = ground arith

hex_digit_not_ascii_space : (v : ℕ) → v < 16 → is_ascii_space (hex_digit v) ≡ false
unfolding is_ascii_space hex_digit
hex_digit_not_ascii_space v h = ground arith

abbrev pub IsBytes : List ℕ → Type 0
IsBytes = All (λ b. b < 256)

from_hex-pair :
    (c d : ℕ) (s : List ℕ)
    → is_ascii_space c ≡ false
    → from_hex (c ∷ d ∷ s) ≡ byte_of (hex_value c) (hex_value d) (from_hex s)
unfolding from_hex
from_hex-pair c d s h = rw (h, from_hex)

from_hex-to_hex : (bs : List ℕ) → IsBytes bs → from_hex (to_hex bs) ≡ some bs
unfolding to_hex
from_hex-to_hex [] h = unfold from_hex in refl
from_hex-to_hex (b ∷ bs) h =
    from_hex-pair (hex_digit (b / 16)) (hex_digit (b % 16)) (to_hex bs)
      (hex_digit_not_ascii_space (b / 16) (omega arith))
    ∙ rw
        (
          hex_value-digit (b / 16) (omega arith),
          hex_value-digit (b % 16) (omega arith),
          from_hex-to_hex bs h.1,
        )
        (unfold byte_of in ap (λ (v : ℕ). some (v ∷ bs)) (omega arith))

all_solid : (bs : List ℕ) → IsBytes bs → All (λ c. is_space c ≡ false) (to_hex bs)
unfolding to_hex
all_solid [] h = tt
all_solid (b ∷ bs) h = (
  hex_digit_not_space (b / 16) (omega arith),
  (hex_digit_not_space (b % 16) (omega arith), all_solid bs h.1),
)

pub strip_right_solid : (s : List ℕ) → All (λ c. is_space c ≡ false) s → strip_right s ≡ s
unfolding strip_right
strip_right_solid [] h = refl
strip_right_solid (c ∷ []) h = rw h.0
strip_right_solid (c ∷ d ∷ s) h = rw (strip_right_solid (d ∷ s) h.1, strip_right)

pub compare_digest_iff : (s t : List ℕ) → compare_digest s t ≡ true → s ≡ t
unfolding compare_digest
compare_digest_iff [] [] h = refl
compare_digest_iff [] (b ∷ t) h = absurd (cc)
compare_digest_iff (a ∷ s) [] h = absurd (cc)
compare_digest_iff (a ∷ s) (b ∷ t) h = ground (arith, compare_digest_iff s t)

pub compare_digest_refl : (s : List ℕ) → compare_digest s s ≡ true
unfolding compare_digest
compare_digest_refl [] = refl
compare_digest_refl (a ∷ s) = ground (arith, compare_digest_refl s)

pub strip_left_solid : (s : List ℕ) → All (λ c. is_space c ≡ false) s → strip_left s ≡ s
unfolding strip_left
strip_left_solid [] h = refl
strip_left_solid (c ∷ s) h = rw h.0

behind-append : (p s : List ℕ) → behind p (p ++ s) ≡ some s
unfolding behind
behind-append [] s = refl
behind-append (c ∷ p) s = ground (arith, behind-append p s)

scheme_solid : All (λ c. is_space c ≡ false) scheme
unfolding is_space
scheme_solid = (refl, (refl, (refl, (refl, (refl, (refl, (refl, tt)))))))

header_digest-to_hex : (bs : List ℕ) → IsBytes bs → header_digest (scheme ++ to_hex bs) ≡ some bs
unfolding header_digest
header_digest-to_hex bs h =
    let s = scheme ++ to_hex bs in
    let solid : All (λ c. is_space c ≡ false) s =
      All-append (λ c. is_space c ≡ false) scheme (to_hex bs) scheme_solid (all_solid bs h) in
    let e : strip s ≡ s =
      unfold strip in ap strip_right (strip_left_solid s solid) ∙ strip_right_solid s solid in
    let b : behind scheme (strip s) ≡ some (to_hex bs) =
      ap (behind scheme) e ∙ behind-append scheme (to_hex bs) in
    rw (b, header_digest) (from_hex-to_hex bs h)

module _ (hmac : List ℕ → List ℕ → List ℕ) where
  pub verify_self :
      (body secret : List ℕ)
      → IsBytes (hmac secret body)
      → verify_signature hmac body secret (scheme ++ to_hex (hmac secret body)) ≡ true
  unfolding verify_signature
  verify_self body secret h =
      rw (header_digest-to_hex (hmac secret body) h, verify_signature)
        (compare_digest_refl (hmac secret body))

  -- A header made of the scheme and the hexadecimal digest of the body verifies under any list of
  -- secrets that holds the signing one; this is how a rotation window accepts both secrets.
  pub verify-sign :
      (body secret : List ℕ) (before after : List (List ℕ))
      → IsBytes (hmac secret body)
      → verify_signature_any hmac body
          (before ++ secret ∷ after)
          (scheme ++ to_hex (hmac secret body))
        ≡ true
  unfolding verify_signature_any
  verify-sign body secret [] after h = rw (verify_self body secret h)
  verify-sign body secret (s ∷ before) after h =
      ground (arith, verify-sign body secret before after h)

  -- Under one secret a header vouches for one digest: bodies that it verifies have the same HMAC.
  pub verify_one_digest :
      (body body' secret header : List ℕ)
      → verify_signature hmac body secret header ≡ true
      → verify_signature hmac body' secret header ≡ true
      → hmac secret body ≡ hmac secret body'
  unfolding verify_signature
  verify_one_digest body body' secret [] h h' = absurd (cc)
  verify_one_digest body body' secret (c ∷ s) h h' = elim (Option-cases (header_digest (c ∷ s))) [
    | inl e ↦ absurd (ground arith)
    | inr (d, e) ↦
        ground
          (arith, compare_digest_iff (hmac secret body) d, compare_digest_iff (hmac secret body') d)
  ]
