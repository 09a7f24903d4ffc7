-- ===== src/Config/Checked.antt =====
-- The outcome of a check of config.py, and what its checks ask of a value.
use Prim.Native.String.{[] as empty_text, ◌∷◌ as text_cons}
use Prim.Native.Char.{code}
use agent_wake.Prelude.{
  String, ◌≡◌, refl, Bool, true, false, not, ◌&&◌, ◌||◌, Option, none, some, ◌==◌, leb, ltb, eqb,
  if◌then◌else◌,
}
use agent_wake.Json.{
  ℤ, pos, negsuc, Json, Items, Fields, null, bool, int, float, str, nil, cons, end, field,
}

-- A value; a ConfigError, told by the setting that its message is about; or another exception, which no
-- caller catches.
pub data Checked {ℓ} (A : Type ℓ) : Type ℓ where
  ok : A → Checked A
  refused : String → Checked A
  crashed : Checked A

-- What follows a check, and what a sequence that returns has computed on the way.
module _ {ℓ κ} {A : Type ℓ} {B : Type κ} where
  infixl 5 ◌>>=◌
  abbrev pub ◌>>=◌ : Checked A → (A → Checked B) → Checked B
  crashed >>= next = crashed
  refused setting >>= next = refused setting
  ok value >>= next = next value

  pub >>=-inv :
      (first : Checked A) (next : A → Checked B) {result : B}
      → (first >>= next) ≡ ok result
      → (value : A) × (first ≡ ok value) × (next value ≡ ok result)
  >>=-inv crashed next h = absurd (cc)
  >>=-inv (refused setting) next h = absurd (cc)
  >>=-inv (ok value) next h = (value, refl, h)

infixl 5 ◌>>◌
abbrev pub ◌>>◌ {ℓ} : {B : Type ℓ} → Checked (Unit {0}) → Checked B → Checked B
check >> rest = check >>= λ _. rest

-- `if not b: raise ConfigError(...)`
abbrev pub need : Bool → String → Checked (Unit {0})
need b setting = if b then ok tt else refused setting

-- A check that is passed, and what comes after it.
pub need-then {ℓ} :
    {B : Type ℓ} (b : Bool) (s : String) (k : Checked B) {v : B}
    → (need b s >> k) ≡ ok v
    → (b ≡ true) × (k ≡ ok v)
need-then true s k h = (refl, h)
need-then false s k h = absurd (cc)

-- `v is None`, also for a key that is missing
abbrev pub is_none : Option Json → Bool
is_none none = true
is_none (some null) = true
is_none _ = false

-- `isinstance(v, str) and v`
abbrev pub is_filled : Option Json → Bool
is_filled (some (str s)) = not (s == "")
is_filled _ = false

-- `isinstance(v, int) and not isinstance(v, bool)`, with the value
abbrev pub as_int : Option Json → Option ℤ
as_int (some (int n)) = some n
as_int _ = none

abbrev pub is_positive : ℤ → Bool
is_positive (pos n) = ltb 0 n
is_positive (negsuc n) = false

abbrev pub is_count : Option Json → Bool
is_count v = elim (as_int v) [ none ↦ false | some n ↦ is_positive n ]

abbrev pub port_range : ℤ → Bool
port_range (pos n) = leb 1 n && leb n 65535
port_range (negsuc n) = false

abbrev pub is_port : Option Json → Bool
is_port v = elim (as_int v) [ none ↦ false | some n ↦ port_range n ]

abbrev pub is_bool : Option Json → Bool
is_bool (some (bool b)) = true
is_bool _ = false

-- a minus in front of the `repr` of a float
abbrev has_minus : String → Bool
has_minus empty_text = false
has_minus (text_cons c s) = eqb (code c) 45

-- `not (v <= 0)` of a number that is no Boolean; it holds of a NaN
abbrev pub is_positive_number : Option Json → Bool
is_positive_number (some (int n)) = is_positive n
is_positive_number (some (float s)) = not (has_minus s || s == "0.0")
is_positive_number _ = false

-- `v.strip()` is not empty, for blanks, tabs and line ends
unfoldable pub has_ink : String → Bool
has_ink empty_text = false
has_ink (text_cons c s) =
    not (eqb (code c) 32 || leb 9 (code c) && leb (code c) 13 || leb 28 (code c) && leb (code c) 31)
    || has_ink s

-- `d.get(k, default)`
abbrev pub or_default : Option Json → Json → Json
or_default none d = d
or_default (some v) d = v

-- a loop over the items of a dictionary, which builds another one with the same keys
unfoldable pub each_field : (String → Json → Checked Json) → Fields → Checked Fields
each_field f end = ok end
each_field f (field k v d) = do v' ← f k v; d' ← each_field f d; ok (field k v' d')

unfoldable pub each_item : (Json → Checked Json) → Items → Checked Items
each_item f nil = ok nil
each_item f (cons v vs) = do v' ← f v; vs' ← each_item f vs; ok (cons v' vs')

-- a loop over a list that only checks
unfoldable pub all_items : (Json → Bool) → Items → Bool
all_items p nil = true
all_items p (cons v vs) = p v && all_items p vs
