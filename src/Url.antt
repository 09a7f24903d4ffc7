-- ===== src/Url.antt =====
-- The parts of a URL that `urllib.parse.urlparse` finds, for config.py and netguard.py.
use Prim.Native.Char.{Char, code}
use Prim.Native.String.{String, [], ◌∷◌, ◌++◌}
use agent_wake.Prelude.{
  ℕ, ◌≡◌, refl, Bool, false, ◌||◌, ◌&&◌, Option, none, some, ◌==◌, if◌then◌else◌, eqb,
}
use agent_wake.Outbox.Url.{url_scheme, lstrip, without_breaks, lower}

-- what stands before, and what from, the first character that passes a test
unfoldable pub before : (Char → Bool) → String → String
before p [] = []
before p (c ∷ s) = if p c then [] else c ∷ before p s

unfoldable pub from : (Char → Bool) → String → String
from p [] = []
from p (c ∷ s) = if p c then c ∷ s else from p s

abbrev rest_of : String → String
rest_of [] = []
rest_of (c ∷ s) = s

abbrev is_char : ℕ → Char → Bool
is_char n c = eqb (code c) n

-- `/`, `?` and `#`, which end a host, and the latter two, which end a path
abbrev ends_netloc : Char → Bool
ends_netloc c = is_char 47 c || is_char 63 c || is_char 35 c

abbrev ends_path : Char → Bool
ends_path c = is_char 63 c || is_char 35 c

-- the URL behind its scheme
unfoldable pub after_scheme : String → String
unfolding from lstrip without_breaks
after_scheme url =
    let clean = without_breaks (lstrip url) in
    if url_scheme url == "" then clean else rest_of (from (is_char 58) clean)

-- what stands behind `//`, if that is in front
unfoldable pub authority : String → Option String
authority (a ∷ (b ∷ s)) = if is_char 47 a && is_char 47 b then some s else none
authority s = none

-- `urlparse(url).netloc`
unfoldable pub netloc : String → String
unfolding authority after_scheme before
netloc url = elim (authority (after_scheme url)) [ none ↦ "" | some s ↦ before ends_netloc s ]

-- `urlparse(url).path`; the parameters behind a `;` are part of it here
unfoldable pub path : String → String
unfolding authority after_scheme before from
path url =
    before ends_path (elim (authority (after_scheme url)) [
      | none ↦ after_scheme url
      | some s ↦ from ends_netloc s
    ])

unfoldable pub has_char : ℕ → String → Bool
has_char n [] = false
has_char n (c ∷ s) = is_char n c || has_char n s

-- what stands behind the last `@`
unfoldable pub after_user : String → String
unfolding has_char
after_user [] = []
after_user (c ∷ s) = if has_char 64 (c ∷ s) then after_user s else c ∷ s

unfoldable pub lowered : String → String
unfolding lower
lowered [] = []
lowered (c ∷ s) = lower c ++ lowered s

-- `urlparse(url).hostname`, with "" for None: without the user and the port, and without the brackets
unfoldable pub hostname : String → String
unfolding netloc after_user before from lowered
hostname url =
    let host = after_user (netloc url) in
    lowered (
      if has_char 91 host
      then before (is_char 93) (rest_of (from (is_char 91) host))
      else before (is_char 58) host)

parts_test : hostname "https://Bob@Example.ORG:8443/a?b#c" ≡ "example.org"
unfolding hostname url_scheme has_char
parts_test = refl

path_test : path "vault://kv/data/ci?x" ≡ "/data/ci"
unfolding path url_scheme
path_test = refl

bare_test : netloc "env:" ≡ ""
unfolding netloc url_scheme
bare_test = refl
