-- ===== src/Json/Number.antt =====
-- `int(s)` of Python, for a text of ASCII characters, and the decimal text of a number. A text is read
-- by its code points.
pub mod Shown
use Prim.Native.Char.{code}
use Prim.Native.String.{[] as empty_text, ◌∷◌ as text_cons}
use agent_wake.Prelude.{
  ℕ, zero, suc, ◌+◌, ◌-◌, ◌*◌, ◌/◌, ◌%◌, String, ◌≡◌, refl, Bool, true, false, ◌&&◌, ◌||◌, Option,
  none, some, List, [], ◌∷◌, ◌++◌, if◌then◌else◌, ltb, leb, eqb,
}
use agent_wake.Json.{ℤ, pos, negsuc}

unfoldable pub codes : String → List ℕ
codes empty_text = []
codes (text_cons c s) = code c ∷ codes s

abbrev pub is_blank : ℕ → Bool
is_blank c = eqb c 32 || leb 9 c && leb c 13 || leb 28 c && leb c 31

abbrev pub is_digit : ℕ → Bool
is_digit c = leb 48 c && leb c 57

unfoldable pub skip_blanks : List ℕ → List ℕ
skip_blanks [] = []
skip_blanks (c ∷ s) = if is_blank c then skip_blanks s else c ∷ s

unfoldable pub all_blank : List ℕ → Bool
all_blank [] = true
all_blank (c ∷ s) = is_blank c && all_blank s

-- the digits that are left, with single underscores between them and blanks behind; `after_digit` tells
-- whether one has just been read
unfoldable pub read_digits : ℕ → Bool → List ℕ → Option ℕ
unfolding all_blank
read_digits n after_digit [] = if after_digit then some n else none
read_digits n after_digit (c ∷ s) =
    let rest = read_digits (if is_digit c then n * 10 + (c - 48) else n) (is_digit c) s in
    if is_digit c || eqb c 95 && after_digit
    then rest
    else if is_blank c && after_digit && all_blank s
    then some n
    else none

abbrev negated : Option ℕ → Option ℤ
negated none = none
negated (some zero) = some (pos 0)
negated (some (suc n)) = some (negsuc n)

abbrev signless : Option ℕ → Option ℤ
signless none = none
signless (some n) = some (pos n)

unfoldable pub read_signed : List ℕ → Option ℤ
unfolding read_digits
read_signed [] = none
read_signed (c ∷ s) =
    if eqb c 45
    then negated (read_digits 0 false s)
    else if eqb c 43
    then signless (read_digits 0 false s)
    else signless (read_digits 0 false (c ∷ s))

-- `none` is the ValueError
unfoldable pub read_int : List ℕ → Option ℤ
unfolding read_signed skip_blanks
read_int s = read_signed (skip_blanks s)

unfoldable pub py_int : String → Option ℤ
unfolding read_int codes
py_int s = read_int (codes s)

-- the last of the digits is the remainder; the number itself is fuel enough, since a tenth is smaller
unfoldable pub digits : ℕ → ℕ → List ℕ
digits zero n = (48 + n % 10) ∷ []
digits (suc fuel) n =
    let rest = digits fuel (n / 10) in
    if ltb n 10 then (48 + n % 10) ∷ [] else rest ++ (48 + n % 10) ∷ []

-- `str(n)`
unfoldable pub show_int : ℤ → List ℕ
unfolding digits
show_int (pos n) = digits n n
show_int (negsuc n) = 45 ∷ digits (suc n) (suc n)

int_test : py_int " 1_024 " ≡ some (pos 1024)
unfolding py_int
int_test = refl

minus_test : py_int "-7" ≡ some (negsuc 6)
unfolding py_int
minus_test = refl

bad_test : py_int "80_" ≡ none
unfolding py_int
bad_test = refl

show_test : show_int (negsuc 119) ≡ codes "-120"
unfolding show_int codes
show_test = refl
