-- ===== src/Outbox/Callback.antt =====
-- `_validate_callback_url` of outbox.py, with the ValueError of `urlparse`. What `urlparse` refuses of a
-- host beside one bracket without the other is an argument, `rejects`: a host in brackets that is no IPv6
-- address, and one that its normal form changes.
use Prim.Native.String.{◌++◌}
use agent_wake.Prelude.{String, ◌≡◌, refl, Bool, false, not, ◌||◌, ◌&&◌, ◌==◌, if◌then◌else◌}
use agent_wake.Json.{str, repr}
use agent_wake.Outbox.Url.{url_scheme}
use agent_wake.Url.{netloc, has_char}

-- The error text of a URL, or none, or the exception.
pub data UrlCheck : Type 0 where
  allowed : UrlCheck
  disallowed : String → UrlCheck
  unparsable : UrlCheck

-- one bracket of `[` and `]` without the other
unfoldable pub is_half_bracketed : String → Bool
unfolding has_char
is_half_bracketed host =
    has_char 91 host && not (has_char 93 host) || has_char 93 host && not (has_char 91 host)

unfoldable pub is_unparsable : (String → Bool) → String → Bool
unfolding is_half_bracketed netloc
is_unparsable rejects url = is_half_bracketed (netloc url) || rejects (netloc url)

abbrev pub scheme_error : String → String
scheme_error url = "disallowed scheme " ++ repr (str (url_scheme url))

unfoldable pub validate_callback_url : (String → Bool) → String → UrlCheck
unfolding is_unparsable url_scheme
validate_callback_url rejects url =
    if is_unparsable rejects url
    then unparsable
    else if url_scheme url == "http" || url_scheme url == "https"
    then allowed
    else disallowed (scheme_error url)

relative_test : validate_callback_url (λ h. false) "/etc/passwd" ≡ disallowed "disallowed scheme ''"
unfolding validate_callback_url repr
relative_test = refl

half_test : validate_callback_url (λ h. false) "http://[::1" ≡ unparsable
unfolding validate_callback_url
half_test = refl
