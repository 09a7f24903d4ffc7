-- ===== src/Config/Senders.antt =====
-- The senders of a configuration file (`sources` before v2): their secrets and what they may do.
use Prim.Native.String.{◌++◌, [] as empty_text, ◌∷◌ as text_cons}
use Prim.Native.Char.{code}
use agent_wake.Prelude.{
  String, Bool, true, false, not, ◌&&◌, ◌||◌, Option, none, some, ◌==◌, if◌then◌else◌, eqb,
}
use agent_wake.Json.{
  Json, Items, Fields, null, str, arr, obj, nil, cons, end, field, get, as_arr, truthy,
}
use agent_wake.Outbox.Url.{url_scheme}
use agent_wake.Url.{netloc, path}
use agent_wake.Addressing.Legacy.{or_null}
use agent_wake.Config.Checked.{
  Checked, ok, refused, ◌>>=◌, ◌>>◌, need, is_none, is_filled, all_items, each_field,
}

-- a scheme of _VALID_SCHEMES, and a host or a path
unfoldable pub is_secret_uri : String → Bool
is_secret_uri uri =
    (url_scheme uri == "env" || url_scheme uri == "vault")
    && not (netloc uri == "" && path uri == "")

-- `_parse_uri`
unfoldable pub parse_uri : String → Checked String
unfolding is_secret_uri
parse_uri uri = do need (is_secret_uri uri) "uri"; ok uri

-- `s.startswith(p)`
unfoldable pub starts_with : String → String → Bool
starts_with s empty_text = true
starts_with empty_text (text_cons c p) = false
starts_with (text_cons d s) (text_cons c p) = eqb (code d) (code c) && starts_with s p

unfoldable pub is_vault_uri : String → Bool
unfolding starts_with
is_vault_uri uri = starts_with uri "vault://"

abbrev pub nonempty_text : Option Json → Checked String
nonempty_text (some (str s)) = if s == "" then refused "secret" else ok s
nonempty_text v = refused "secret"

-- the loop over `secrets`
unfoldable pub parse_uris : Items → Checked Items
unfolding parse_uri
parse_uris nil = ok nil
parse_uris (cons (str u) us) = do uri ← parse_uri u; uris ← parse_uris us; ok (cons (str uri) uris)
parse_uris (cons v us) = refused "secrets"

abbrev pub is_given : String → Fields → Bool
is_given k d = elim (get k d) [ none ↦ false | some v ↦ true ]

abbrev pub nonempty_list : Option Json → Checked Items
nonempty_list (some (arr (cons v vs))) = ok (cons v vs)
nonempty_list v = refused "secrets"

-- each of the three spellings; `some` if it is the one that is there
unfoldable pub env_secret : Fields → Checked Items
env_secret info = do
  name ← nonempty_text (get "secret_env" info)
  ok (cons (str ("env://" ++ name)) nil)

unfoldable pub one_secret : Fields → Checked Items
unfolding parse_uri
one_secret info = do
  uri ← nonempty_text (get "secret" info)
  parsed ← parse_uri uri
  ok (cons (str parsed) nil)

unfoldable pub many_secrets : Fields → Checked Items
unfolding parse_uris
many_secrets info = do uris ← nonempty_list (get "secrets" info); parse_uris uris

-- exactly one of the three must be there
unfoldable pub secret_uris_of : Fields → Checked Items
unfolding env_secret one_secret many_secrets
secret_uris_of info =
    let env = is_given "secret_env" info in
    let one = is_given "secret" info in
    let many = is_given "secrets" info in
    if env
    then (if one || many then refused "secret" else env_secret info)
    else if one
    then (if many then refused "secret" else one_secret info)
    else if many
    then many_secrets info
    else refused "secret"

abbrev pub filled : Json → Bool
filled v = is_filled (some v)

-- `allowed_target_principals` is left out, or a list of names that is not empty
unfoldable pub check_targets : Option Json → Checked (Unit {0})
unfolding all_items
check_targets none = ok tt
check_targets (some null) = ok tt
check_targets (some (arr (cons v vs))) =
    need (all_items filled (cons v vs)) "allowed_target_principals"
check_targets (some v) = refused "allowed_target_principals"

-- `allowed_trigger_identities` is left out, or a list of names
unfoldable pub check_identities : Option Json → Checked (Unit {0})
unfolding all_items
check_identities none = ok tt
check_identities (some null) = ok tt
check_identities (some (arr vs)) = need (all_items filled vs) "allowed_trigger_identities"
check_identities (some v) = refused "allowed_trigger_identities"

-- `info.get("identity", info.get("principal_id"))`
unfoldable pub identity_of : Fields → Option Json
identity_of info = elim (get "identity" info) [ none ↦ get "principal_id" info | some v ↦ some v ]

-- `a or b`
abbrev or_else : Option Json → Json → Json
or_else a b = if truthy a then or_null a else b

unfoldable pub sender_entry : Json → Fields → Items → Fields
unfolding identity_of truthy
sender_entry default_url info uris = field "secret_uris" (arr uris) (
    field "callback_url" (or_else (get "callback_url" info) default_url) (
      field "identity" (or_null (identity_of info)) (
        field "principal_id" (or_null (identity_of info)) (
          field "allowed_trigger_identities" (or_null (get "allowed_trigger_identities" info)) (
            field "allowed_target_principals" (or_null (get "allowed_target_principals" info))
              end)))))

-- a round of the loop over the senders
unfoldable pub check_sender : Json → Fields → Checked Json
unfolding secret_uris_of check_targets check_identities sender_entry identity_of
check_sender default_url info = do
  uris ← secret_uris_of info
  check_targets (get "allowed_target_principals" info)
  check_identities (get "allowed_trigger_identities" info)
  need (is_none (identity_of info) || is_filled (identity_of info)) "identity"
  ok (obj (sender_entry default_url info uris))

unfoldable pub check_named_sender : Json → String → Json → Checked Json
unfolding check_sender
check_named_sender default_url name (obj info) = check_sender default_url info
check_named_sender default_url name v = refused "sender"

unfoldable pub check_senders : Json → Fields → Checked Fields
unfolding each_field check_named_sender
check_senders default_url sources = each_field (check_named_sender default_url) sources

unfoldable pub has_vault_uri : Items → Bool
unfolding is_vault_uri
has_vault_uri nil = false
has_vault_uri (cons (str u) us) = is_vault_uri u || has_vault_uri us
has_vault_uri (cons v us) = has_vault_uri us

abbrev entry_has_vault : Json → Bool
entry_has_vault (obj d) = elim (as_arr (get "secret_uris" d)) [
  | none ↦ false
  | some us ↦ has_vault_uri us
]
entry_has_vault v = false

-- `needs_vault` after the loop
unfoldable pub senders_need_vault : Fields → Bool
unfolding has_vault_uri
senders_need_vault end = false
senders_need_vault (field name v d) = entry_has_vault v || senders_need_vault d
