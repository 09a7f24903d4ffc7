-- ===== src/Config/Credentials.antt =====
-- What a loaded sender is authenticated by.
use mathlib.Core.Path.{subst}
use Prim.Native.String.{◌++◌, ◌∷◌}
use text.Mathlib.TextLemmas.{cons-append, nil-append}
use agent_wake.Prelude.{
  String, ◌≡◌, refl, ap, ◌∙◌, inl, inr, true, ◌||◌, Option, some, ◌==◌, Bool-cases,
}
use agent_wake.Json.{Json, Items, Fields, str, arr, obj, nil, cons, get}
use agent_wake.Outbox.Url.{url_scheme}
use agent_wake.Config.Checked.{ok, refused, ◌>>=◌, need-then, >>=-inv, is_none, is_filled}
use agent_wake.Config.Each.{AllFields, AllItems, AllFields-map, ok_inj, each_field-All, both}
use agent_wake.Config.References.{IsObject}
use agent_wake.Config.Senders.{
  is_secret_uri, parse_uri, parse_uris, nonempty_text, nonempty_list, is_given, env_secret,
  one_secret, many_secrets, secret_uris_of, check_targets, check_identities, identity_of,
  sender_entry, check_sender, check_named_sender, check_senders,
}

-- a text with the scheme env or vault
abbrev pub IsSecret : Json → Type 0
IsSecret v =
    (s : String) × (v ≡ str s) × ((url_scheme s == "env" || url_scheme s == "vault") ≡ true)

-- `env://` in front of a name, character by character
spelled : String → String
spelled name = "e" ∷ ("n" ∷ ("v" ∷ (":" ∷ ("/" ∷ ("/" ∷ name)))))

env-spelled : (name : String) → "env://" ++ name ≡ spelled name
unfolding spelled
env-spelled name =
    cons-append "e" "nv://" name
    ∙ ap (λ s. "e" ∷ s)
        (cons-append "n" "v://" name
          ∙ ap (λ s. "n" ∷ s)
              (cons-append "v" "://" name
                ∙ ap (λ s. "v" ∷ s)
                    (cons-append ":" "//" name
                      ∙ ap (λ s. ":" ∷ s)
                          (cons-append "/" "/" name
                            ∙ ap (λ s. "/" ∷ s)
                                (cons-append "/" "" name ∙ ap (λ s. "/" ∷ s) (nil-append name))))))

env-scheme : (name : String) → url_scheme ("env://" ++ name) ≡ "env"
unfolding url_scheme spelled
env-scheme name = rw env-spelled refl

parse_uri-IsSecret : (uri v : String) → parse_uri uri ≡ ok v → IsSecret (str v)
unfolding parse_uri is_secret_uri
parse_uri-IsSecret uri v h =
    let (good, h1) = need-then (is_secret_uri uri) "uri" _ h in
    subst (λ s. IsSecret (str s)) (ok_inj h1) (uri, refl, (both _ _ good).0)

-- at least one secret, and each a URI of a secret
abbrev pub Secrets : Items → Type 0
Secrets nil = ⊥
Secrets (cons u us) = IsSecret u × AllItems IsSecret us

AllItems-parse_uris : (us us' : Items) → parse_uris us ≡ ok us' → AllItems IsSecret us'
unfolding parse_uris
AllItems-parse_uris nil us' h = subst (AllItems IsSecret) (ok_inj h) tt
AllItems-parse_uris (cons (str u) us) us' h =
    let (uri, e, h1) = >>=-inv (parse_uri u) _ h in
    let (uris, e1, h2) = >>=-inv (parse_uris us) _ h1 in
    subst (AllItems IsSecret) (ok_inj h2)
      (parse_uri-IsSecret u uri e, AllItems-parse_uris us uris e1)
AllItems-parse_uris (cons v us) us' h = absurd (cc)

Secrets-parse_uris : (v : Json) (us us' : Items) → parse_uris (cons v us) ≡ ok us' → Secrets us'
unfolding parse_uris
Secrets-parse_uris (str u) us us' h =
    let (uri, e, h1) = >>=-inv (parse_uri u) _ h in
    let (uris, e1, h2) = >>=-inv (parse_uris us) _ h1 in
    subst Secrets (ok_inj h2) (parse_uri-IsSecret u uri e, AllItems-parse_uris us uris e1)
Secrets-parse_uris v us us' h = absurd (cc)

module _ (info : Fields) (us : Items) where
  Secrets-env : env_secret info ≡ ok us → Secrets us
  unfolding env_secret
  Secrets-env h =
      let (name, _, h1) = >>=-inv (nonempty_text (get "secret_env" info)) _ h in
      subst Secrets (ok_inj h1) ((_, refl, rw env-scheme refl), tt)

  Secrets-one : one_secret info ≡ ok us → Secrets us
  unfolding one_secret
  Secrets-one h =
      let (uri, _, h1) = >>=-inv (nonempty_text (get "secret" info)) _ h in
      let (v, e, h2) = >>=-inv (parse_uri uri) _ h1 in
      subst Secrets (ok_inj h2) (parse_uri-IsSecret uri v e, tt)

  Secrets-list : (v : Option Json) → (nonempty_list v >>= parse_uris) ≡ ok us → Secrets us
  Secrets-list (some (arr (cons v vs))) h = Secrets-parse_uris v vs us h
  Secrets-list v h = absurd (cc)

  Secrets-many : many_secrets info ≡ ok us → Secrets us
  unfolding many_secrets
  Secrets-many h = Secrets-list (get "secrets" info) h

no_secret : (us : Items) → refused "secret" ≡ ok us → Secrets us
no_secret us h = absurd (cc)

Secrets-secret_uris_of : (info : Fields) (us : Items) → secret_uris_of info ≡ ok us → Secrets us
unfolding secret_uris_of
Secrets-secret_uris_of info us h =
    let bad = no_secret us in
    elim (Bool-cases (is_given "secret_env" info)) [
      | inl env ↦ elim (Bool-cases (is_given "secret" info || is_given "secrets" info)) [
        | inl more ↦ bad (rw (env, more) at h)
        | inr one ↦ Secrets-env info us (rw (env, one) at h)
      ]
      | inr n ↦ elim (Bool-cases (is_given "secret" info)) [
        | inl one ↦ elim (Bool-cases (is_given "secrets" info)) [
          | inl more ↦ bad (rw (n, one, more) at h)
          | inr m ↦ Secrets-one info us (rw (n, one, m) at h)
        ]
        | inr m ↦ elim (Bool-cases (is_given "secrets" info)) [
          | inl many ↦ Secrets-many info us (rw (n, m, many) at h)
          | inr nothing ↦ bad (rw (n, m, nothing) at h)
        ]
      ]
    ]

-- an entry of the senders with its secrets
abbrev pub Credentialed : String → Json → Type 0
Credentialed k v =
    (d : Fields) × (us : Items) × (v ≡ obj d) × (get "secret_uris" d ≡ some (arr us)) × Secrets us

Credentialed-sender :
    (url : Json) (k : String) (v v' : Json) → check_named_sender url k v ≡ ok v' → Credentialed k v'
unfolding check_named_sender check_sender sender_entry get
Credentialed-sender url k (obj info) v' h =
    let (us, e, h1) = >>=-inv (secret_uris_of info) _ h in
    let (_, _, h2) = >>=-inv (check_targets (get "allowed_target_principals" info)) _ h1 in
    let (_, _, h3) = >>=-inv (check_identities (get "allowed_trigger_identities" info)) _ h2 in
    let (_, h4) =
      need-then (is_none (identity_of info) || is_filled (identity_of info)) "identity" _ h3 in
    subst (Credentialed k) (ok_inj h4) (_, us, refl, refl, Secrets-secret_uris_of info us e)
Credentialed-sender url k v v' h = absurd (cc)

pub senders-Credentialed :
    (url : Json) (sources senders : Fields)
    → check_senders url sources ≡ ok senders
    → AllFields Credentialed senders
unfolding check_senders
senders-Credentialed url sources senders h =
    each_field-All Credentialed (check_named_sender url) (Credentialed-sender url) sources senders h

pub senders-IsObject :
    (url : Json) (sources senders : Fields)
    → check_senders url sources ≡ ok senders
    → AllFields IsObject senders
senders-IsObject url sources senders h =
    AllFields-map Credentialed IsObject (λ k v c. (c.0, c.2)) senders
      (senders-Credentialed url sources senders h)
