-- ===== src/Ingest/Signature.antt =====
-- `verify_signature` and `verify_signature_any` of gating.py. A text is its code points, and a body,
-- a secret and a digest are bytes. HMAC-SHA256 is a parameter, `hmac secret body`.
pub mod RoundTrip
use agent_wake.Prelude.{
  ℕ, ◌+◌, ◌*◌, ◌-◌, String, ◌≡◌, refl, Bool, true, false, ◌&&◌, ◌||◌, Option, none, some, List, [],
  ◌∷◌, ◌++◌, arith, if◌then◌else◌, leb, eqb,
}

-- a character that `str.strip` removes
unfoldable pub is_space : ℕ → Bool
is_space c =
    leb 9 c && leb c 13
    || leb 28 c && leb c 32
    || eqb c 133
    || eqb c 160
    || eqb c 5760
    || leb 8192 c && leb c 8202
    || eqb c 8232
    || eqb c 8233
    || eqb c 8239
    || eqb c 8287
    || eqb c 12288

unfoldable pub strip_left : List ℕ → List ℕ
strip_left [] = []
strip_left (c ∷ s) = if is_space c then strip_left s else c ∷ s

unfoldable pub strip_right : List ℕ → List ℕ
strip_right [] = []
strip_right (c ∷ s) = elim (strip_right s) [
  | [] ↦ if is_space c then [] else c ∷ []
  | d ∷ t ↦ c ∷ d ∷ t
]

unfoldable pub strip : List ℕ → List ℕ
strip s = strip_right (strip_left s)

-- the text behind a prefix, if it starts with that
unfoldable pub behind : List ℕ → List ℕ → Option (List ℕ)
behind [] s = some s
behind (p ∷ ps) [] = none
behind (p ∷ ps) (c ∷ s) = if eqb p c then behind ps s else none

-- "sha256="
abbrev pub scheme : List ℕ
scheme = 115 ∷ 104 ∷ 97 ∷ 50 ∷ 53 ∷ 54 ∷ 61 ∷ []

-- `bytes.fromhex` skips these between two bytes
unfoldable pub is_ascii_space : ℕ → Bool
is_ascii_space c = leb 9 c && leb c 13 || eqb c 32

unfoldable pub hex_value : ℕ → Option ℕ
hex_value c =
    if leb 48 c && leb c 57
    then some (c - 48)
    else if leb 97 c && leb c 102
    then some (c - 87)
    else if leb 65 c && leb c 70
    then some (c - 55)
    else none

unfoldable pub byte_of : Option ℕ → Option ℕ → Option (List ℕ) → Option (List ℕ)
byte_of (some hi) (some lo) (some rest) = some ((hi * 16 + lo) ∷ rest)
byte_of _ _ _ = none

-- `none` is the ValueError
unfoldable pub from_hex : List ℕ → Option (List ℕ)
from_hex [] = some []
from_hex (c ∷ []) = if is_ascii_space c then some [] else none
from_hex (c ∷ d ∷ s) = elim (is_ascii_space c) [
  | true ↦ from_hex (d ∷ s)
  | false ↦ byte_of (hex_value c) (hex_value d) (from_hex s)
]

-- `hmac.compare_digest`
unfoldable pub compare_digest : List ℕ → List ℕ → Bool
compare_digest [] [] = true
compare_digest (a ∷ s) (b ∷ t) = eqb a b && compare_digest s t
compare_digest _ _ = false

-- the digest that a header carries
unfoldable pub header_digest : List ℕ → Option (List ℕ)
header_digest header = elim (behind scheme (strip header)) [ none ↦ none | some hex ↦ from_hex hex ]

module _ (hmac : List ℕ → List ℕ → List ℕ) where
  unfoldable pub verify_signature : List ℕ → List ℕ → List ℕ → Bool
  verify_signature body secret [] = false
  verify_signature body secret (c ∷ header) = elim (header_digest (c ∷ header)) [
    | none ↦ false
    | some digest ↦ compare_digest (hmac secret body) digest
  ]

  unfoldable pub verify_signature_any : List ℕ → List (List ℕ) → List ℕ → Bool
  verify_signature_any body [] header = false
  verify_signature_any body (secret ∷ secrets) header =
      if verify_signature body secret header then true else verify_signature_any body secrets header
