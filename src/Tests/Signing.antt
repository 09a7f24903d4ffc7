-- ===== src/Tests/Signing.antt =====
-- Witnesses for the signature of a callback, under a digest that is easy to read.
use mathlib.Core.List.{Memᴰ}
use agent_wake.Prelude.{
  ℕ, ◌+◌, ◌%◌, ◌≤◌, ◌≡◌, ◌≢◌, refl, true, some, List, [], ◌∷◌, ◌++◌, map, arith, any,
}
use agent_wake.Json.{ℤ, pos, field, obj, str, arr, cons, nil, end, bool, get, as_obj}
use agent_wake.Json.Number.{codes, show_int}
use agent_wake.Ingest.Signature.{strip, strip_left, strip_right, is_space, compare_digest}
use agent_wake.Signing.{
  load_keys, signing_input, sign_body, verify_body, distance, split, collect_keys, configured,
  configured_values, env_values, split_items, has_text,
}
use agent_wake.Signing.RoundTrip.{verify-sign_body}
use agent_wake.Signing.Verified.{Carries, verified_was_signed, signature_expires}

-- the last decimal digit of each code point
abbrev last_digits : List ℕ → List ℕ
last_digits = map (λ c. 48 + c % 10)

abbrev marked : List ℕ → List ℕ → List ℕ
marked key input = 102 ∷ last_digits (key ++ input)

abbrev new_key : List ℕ
new_key = 110 ∷ []

abbrev old_key : List ℕ
old_key = 111 ∷ []

-- the header of the body "{}" at the time 10, under the old key
abbrev old_header : List ℕ
old_header = 116 ∷ 61 ∷ 49 ∷ 48 ∷ 44 ∷ 118 ∷ 49 ∷ 61 ∷ 102 ∷ 49 ∷ 57 ∷ 56 ∷ 54 ∷ 49 ∷ 51 ∷ []

keys_test :
    load_keys
      (field "wake"
        (obj (field "hmac_secret" (arr (cons (str "o, n") (cons (bool true) nil))) end))
        end)
      (some "n,,")
    ≡ new_key ∷ old_key ∷ []
unfolding load_keys collect_keys has_text configured configured_values env_values split_items split
    codes get as_obj strip strip_left strip_right is_space compare_digest any
keys_test = refl

header_test :
    sign_body last_digits marked (123 ∷ 125 ∷ []) (old_key ∷ []) (pos 10) ≡ some old_header
unfolding sign_body show_int
header_test = refl

verify-sign_body_example :
    verify_body last_digits marked (123 ∷ 125 ∷ []) old_header (new_key ∷ old_key ∷ []) (pos 12) 5
    ≡ some true
unfolding signing_input distance sign_body show_int
verify-sign_body_example =
    verify-sign_body last_digits marked (123 ∷ 125 ∷ []) old_key [] (new_key ∷ []) [] (pos 12)
      (pos 10) 5 old_header (refl, (refl, (refl, (refl, (refl, (refl, (refl, (refl, tt))))))))
      (omega arith) refl

verified_was_signed_example :
    (t : ℤ) × (key : List ℕ) × Memᴰ key (new_key ∷ old_key ∷ [])
    × (distance (pos 12) t ≤ 5)
    × Carries old_header t (marked key (signing_input last_digits marked t (123 ∷ 125 ∷ [])))
verified_was_signed_example =
    verified_was_signed last_digits marked (123 ∷ 125 ∷ []) old_header (new_key ∷ old_key ∷ [])
      (pos 12) 5 verify-sign_body_example

signature_expires_example :
    verify_body last_digits marked [] old_header (old_key ∷ []) (pos 23) 5 ≢ some true
signature_expires_example =
    signature_expires last_digits marked (123 ∷ 125 ∷ []) [] old_header (new_key ∷ old_key ∷ [])
      (old_key ∷ []) (pos 12) (pos 23) 5 verify-sign_body_example (unfold distance in omega arith)
