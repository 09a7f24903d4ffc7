-- ===== src/Outbox/Url.antt =====
-- The scheme that `urlparse` finds, for outbox.py and config.py.
use Prim.Native.Char.{Char, code}
use Prim.Native.String.{String, [], ◌∷◌, ◌++◌, slice}
use agent_wake.Prelude.{
  ◌-◌, ◌≡◌, refl, Bool, ◌||◌, ◌&&◌, Option, none, some, if◌then◌else◌, leb, eqb,
}

is_upper : Char → Bool
is_upper c = leb 65 (code c) && leb (code c) 90

is_letter : Char → Bool
unfolding is_upper
is_letter c = is_upper c || leb 97 (code c) && leb (code c) 122

-- letters, digits and `+-.`
is_scheme_char : Char → Bool
unfolding is_letter
is_scheme_char c =
    is_letter c
    || leb 48 (code c) && leb (code c) 57
    || eqb (code c) 43
    || eqb (code c) 45
    || eqb (code c) 46

-- the small letter of a capital one
unfoldable pub lower : Char → String
unfolding is_upper
lower c =
    if is_upper c then slice "abcdefghijklmnopqrstuvwxyz" (code c - 65) (code c - 64) else c ∷ []

-- control characters and spaces in front, and the tabs and line ends anywhere, are dropped first
unfoldable pub lstrip : String → String
lstrip [] = []
lstrip (c ∷ s) = if leb (code c) 32 then lstrip s else c ∷ s

unfoldable pub without_breaks : String → String
without_breaks [] = []
without_breaks (c ∷ s) =
    if eqb (code c) 9 || eqb (code c) 10 || eqb (code c) 13
    then without_breaks s
    else c ∷ without_breaks s

abbrev in_front : String → Option String → Option String
in_front s none = none
in_front s (some t) = some (s ++ t)

-- what stands before the first colon, in small letters, if all of it may stand in a scheme
before_colon : String → Option String
unfolding is_scheme_char lower
before_colon [] = none
before_colon (c ∷ s) =
    let rest = before_colon s in
    if eqb (code c) 58 then some [] else if is_scheme_char c then in_front (lower c) rest else none

abbrev or_no_scheme : Option String → String
or_no_scheme none = ""
or_no_scheme (some s) = s

scheme_of : String → String
unfolding before_colon is_letter
scheme_of [] = ""
scheme_of (c ∷ s) = if is_letter c then or_no_scheme (before_colon (c ∷ s)) else ""

-- `urlparse(url).scheme`
unfoldable pub url_scheme : String → String
unfolding lstrip without_breaks scheme_of
url_scheme url = scheme_of (without_breaks (lstrip url))

url_scheme_test : url_scheme " HTTPs://example.org/x" ≡ "https"
unfolding url_scheme
url_scheme_test = refl
