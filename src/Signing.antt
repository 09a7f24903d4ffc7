-- ===== src/Signing.antt =====
-- wake_hmac.py: the keys that sign a callback, its signature, and the check of one. A text and a key are
-- lists of code points, a body is bytes; the encoding of a key is left out, since it tells all keys
-- apart, and `int` reads ASCII digits only. `sha256` and `hmac` are parameters, and give hexadecimal
-- digests.
pub mod Verified
pub mod RoundTrip
use agent_wake.Prelude.{
  length, ℕ, ◌+◌, ◌-◌, String, ◌≡◌, refl, Bool, true, false, not, ◌&&◌, ◌||◌, Option, none, some,
  List, [], ◌∷◌, ◌++◌, any, if◌then◌else◌, leb, ltb, eqb, suc,
}
use agent_wake.Json.{ℤ, pos, negsuc, Json, Items, Fields, str, arr, nil, cons, get, as_obj}
use agent_wake.Json.Number.{codes, read_int, show_int}
use agent_wake.Ingest.Signature.{strip, compare_digest}

abbrev put_front : ℕ → List (List ℕ) → List (List ℕ)
put_front c [] = (c ∷ []) ∷ []
put_front c (w ∷ ws) = (c ∷ w) ∷ ws

-- `s.split(sep)` for a separator of one character
unfoldable pub split : ℕ → List ℕ → List (List ℕ)
split sep [] = [] ∷ []
split sep (c ∷ s) = if eqb c sep then [] ∷ split sep s else put_front c (split sep s)

abbrev after_front : ℕ → Option (List ℕ × List ℕ) → Option (List ℕ × List ℕ)
after_front c none = none
after_front c (some (name, value)) = some (c ∷ name, value)

-- `s.partition(sep)`: what stands on both sides of the first separator, if there is one
unfoldable pub partition : ℕ → List ℕ → Option (List ℕ × List ℕ)
partition sep [] = none
partition sep (c ∷ s) = if eqb c sep then some ([], s) else after_front c (partition sep s)

abbrev pub is_empty : List ℕ → Bool
is_empty [] = true
is_empty (c ∷ s) = false

-- `k in ks`
unfoldable pub has_text : List ℕ → List (List ℕ) → Bool
has_text k ks = any (compare_digest k) ks

-- the values of a list, split; those that are no texts are passed over
unfoldable pub split_items : Items → List (List ℕ)
unfolding split codes
split_items nil = []
split_items (cons (str s) vs) = split 44 (codes s) ++ split_items vs
split_items (cons v vs) = split_items vs

-- the `hmac_secret` of the `wake` block
unfoldable pub configured : Fields → Option Json
configured config = elim (as_obj (get "wake" config)) [
  | none ↦ none
  | some wake ↦ get "hmac_secret" wake
]

unfoldable pub configured_values : Option Json → List (List ℕ)
unfolding split_items split codes
configured_values (some (str s)) = split 44 (codes s)
configured_values (some (arr vs)) = split_items vs
configured_values _ = []

-- `values` of WAKE_HMAC_SECRET, if that is set and not empty
unfoldable pub env_values : Option String → List (List ℕ)
unfolding split codes
env_values none = []
env_values (some s) = if is_empty (codes s) then [] else split 44 (codes s)

-- the loop over `values`, in front of it the keys that it has collected
unfoldable pub collect_keys : List (List ℕ) → List (List ℕ) → List (List ℕ)
unfolding has_text strip
collect_keys keys [] = keys
collect_keys keys (value ∷ values) =
    let key = strip value in
    collect_keys (if not (is_empty key) && not (has_text key keys) then keys ++ key ∷ [] else keys)
      values

unfoldable pub load_keys : Fields → Option String → List (List ℕ)
unfolding collect_keys configured configured_values env_values
load_keys config env = collect_keys [] (env_values env ++ configured_values (configured config))

-- `abs(current - timestamp)`
unfoldable pub distance : ℤ → ℤ → ℕ
distance (pos a) (pos b) = (a - b) + (b - a)
distance (pos a) (negsuc b) = a + suc b
distance (negsuc a) (pos b) = suc a + b
distance (negsuc a) (negsuc b) = (a - b) + (b - a)

abbrev has_field : List ℕ → List (List ℕ × List ℕ) → Bool
has_field name fields = any (λ f. compare_digest name f.0) fields

-- the loop over the items of a header; `none` is `return False`
unfoldable pub read_fields :
    List (List ℕ) → List (List ℕ × List ℕ) → Option (List (List ℕ × List ℕ))
unfolding partition strip
read_fields [] fields = some fields
read_fields (item ∷ items) fields = elim (partition 61 (strip item)) [
  | none ↦ none
  | some (name, value) ↦
      let rest = read_fields items (fields ++ (name, value) ∷ []) in
      if is_empty name || is_empty value || has_field name fields then none else rest
]

-- `fields[name]`, if it is there
unfoldable pub field_value : List ℕ → List (List ℕ × List ℕ) → Option (List ℕ)
field_value name [] = none
field_value name (f ∷ fields) =
    if compare_digest name f.0 then some f.1 else field_value name fields

-- `t` and `v1`
abbrev pub time_name : List ℕ
time_name = 116 ∷ []

abbrev pub digest_name : List ℕ
digest_name = 118 ∷ 49 ∷ []

-- `set(fields) == {"t", "v1"}`, for fields with different names
unfoldable pub is_signature : List (List ℕ × List ℕ) → Bool
is_signature fields =
    eqb (length fields) 2 && has_field time_name fields && has_field digest_name fields

unfoldable pub is_ascii : List ℕ → Bool
is_ascii [] = true
is_ascii (c ∷ s) = ltb c 128 && is_ascii s

-- the comparison with every key
unfoldable pub matched : (List ℕ → List ℕ → List ℕ) → List ℕ → List (List ℕ) → List ℕ → Bool
matched hmac input [] supplied = false
matched hmac input (key ∷ keys) supplied =
    compare_digest (hmac key input) supplied || matched hmac input keys supplied

-- SHA-256 of a body, and the HMAC under a key
module _ (sha256 : List ℕ → List ℕ) (hmac : List ℕ → List ℕ → List ℕ) where
  -- `f"{timestamp}.{body_hash}"`
  unfoldable pub signing_input : ℤ → List ℕ → List ℕ
  signing_input t body = show_int t ++ 46 ∷ sha256 body

  unfoldable pub sign_body : List ℕ → List (List ℕ) → ℤ → Option (List ℕ)
  unfolding signing_input
  sign_body body [] signed_at = none
  sign_body body (key ∷ keys) signed_at = some (
      (116 ∷ 61 ∷ show_int signed_at)
      ++ 44 ∷ 118 ∷ 49 ∷ 61 ∷ hmac key (signing_input signed_at body))

  -- The check of a timestamp and of the digest with it; `none` is the TypeError of
  -- `hmac.compare_digest`, which takes only ASCII texts.
  unfoldable pub verify_at : List ℕ → List (List ℕ) → ℤ → ℕ → List ℕ → ℤ → Option Bool
  unfolding matched signing_input is_ascii
  verify_at body keys now window supplied signed_at =
      if ltb window (distance now signed_at)
      then some false
      else if is_ascii supplied
      then some (matched hmac (signing_input signed_at body) keys supplied)
      else none

  -- from `int(fields["t"])` on
  unfoldable pub verify_fields :
      List ℕ → List (List ℕ × List ℕ) → List (List ℕ) → ℤ → ℕ → Option Bool
  unfolding field_value verify_at
  verify_fields body fields keys now window = elim (field_value time_name fields) [
    | none ↦ some false
    | some t ↦ elim (field_value digest_name fields) [
      | none ↦ some false
      | some supplied ↦ elim (read_int t) [
        | none ↦ some false
        | some signed_at ↦ verify_at body keys now window supplied signed_at
      ]
    ]
  ]

  -- an absent header is the empty one
  unfoldable pub verify_body : List ℕ → List ℕ → List (List ℕ) → ℤ → ℕ → Option Bool
  unfolding split read_fields is_signature verify_fields
  verify_body body header [] now window = some false
  verify_body body header (key ∷ keys) now window =
      if is_empty header then some false else elim (read_fields (split 44 header) []) [
        | none ↦ some false
        | some fields ↦
            if is_signature fields
            then verify_fields body fields (key ∷ keys) now window
            else some false
      ]
