-- ===== src/Config/Channels.antt =====
-- The delivery channels of a principal: webhook and email.
use agent_wake.Prelude.{
  String, Bool, true, false, not, ◌&&◌, ◌||◌, Option, none, some, ◌==◌, if◌then◌else◌,
}
use agent_wake.Json.{Json, Fields, null, bool, int, pos, str, obj, end, field, get, as_str, as_obj}
use agent_wake.Outbox.Url.{url_scheme}
use agent_wake.Url.{hostname}
use agent_wake.Netguard.{Resolver, check_host}
use agent_wake.Config.Checked.{
  Checked, ok, refused, ◌>>=◌, ◌>>◌, need, is_port, is_bool, or_default, each_field,
}
use agent_wake.Config.Senders.{parse_uri, is_vault_uri}

-- a text that is there and not empty
abbrev pub required : String → Fields → Checked String
required k cfg = elim (as_str (get k cfg)) [
  | none ↦ refused k
  | some s ↦ if s == "" then refused k else ok s
]

-- `_assert_safe_webhook_url`, which asks what the guard of a delivery asks of the host
unfoldable pub assert_safe_url : Resolver → String → Checked (Unit {0})
assert_safe_url net url = elim (check_host net (hostname url)) [
  | none ↦ ok tt
  | some why ↦ refused "url"
]

unfoldable pub validate_webhook : Resolver → Fields → Checked Json
unfolding assert_safe_url parse_uri
validate_webhook net cfg = do
  url ← required "url" cfg
  need (url_scheme url == "http" || url_scheme url == "https") "url"
  assert_safe_url net url
  secret_uri ← required "secret_uri" cfg
  signed_by ← parse_uri secret_uri
  ok (obj (field "url" (str url) (field "secret_uri" (str signed_by) end)))

-- the optional `secret_uri` of an email channel
unfoldable pub email_secret : Option Json → Checked Fields
unfolding parse_uri
email_secret none = ok end
email_secret (some null) = ok end
email_secret (some (str s)) =
    if s == ""
    then refused "secret_uri"
    else (do uri ← parse_uri s; ok (field "secret_uri" (str uri) end))
email_secret (some v) = refused "secret_uri"

unfoldable pub validate_email : Fields → Checked Json
unfolding email_secret
validate_email cfg = do
  let port = or_default (get "smtp_port" cfg) (int (pos 587))
  let use_tls = or_default (get "use_tls" cfg) (bool true)
  smtp_host ← required "smtp_host" cfg
  from_addr ← required "from_addr" cfg
  to_addr ← required "to_addr" cfg
  need (is_port (some port)) "smtp_port"
  need (is_bool (some use_tls)) "use_tls"
  secret ← email_secret (get "secret_uri" cfg)
  ok (
      obj (
        field "smtp_host" (str smtp_host) (
          field "from_addr" (str from_addr) (
            field "to_addr" (str to_addr)
              (field "smtp_port" port (field "use_tls" use_tls secret))))))

-- `_validate_channel`, with the tests in front of its call
unfoldable pub validate_channel : Resolver → String → Json → Checked Json
unfolding validate_webhook validate_email
validate_channel net kind (obj cfg) =
    if kind == "webhook"
    then validate_webhook net cfg
    else if kind == "email"
    then validate_email cfg
    else refused "channel"
validate_channel net kind v = refused "channel"

-- `_validate_channels_for`
unfoldable pub validate_channels_for : Resolver → Fields → Checked Fields
unfolding each_field validate_channel
validate_channels_for net channels = each_field (validate_channel net) channels

-- a principal of the v1 `delivery` block
unfoldable pub validate_delivery_entry : Resolver → String → Json → Checked Json
unfolding validate_channels_for
validate_delivery_entry net pid (obj channels) =
    if pid == ""
    then refused "principal"
    else (do checked ← validate_channels_for net channels; ok (obj checked))
validate_delivery_entry net pid v = refused "principal"

unfoldable pub validate_channel_table : Resolver → Json → Checked Fields
unfolding each_field validate_delivery_entry
validate_channel_table net (obj principals) = each_field (validate_delivery_entry net) principals
validate_channel_table net v = refused "delivery"

-- `_validate_principals_v2`
abbrev pub no_channels : Json
no_channels = obj (field "channels" (obj end) end)

abbrev pub only_channels : Fields → Bool
only_channels end = true
only_channels (field k v d) = k == "channels" && only_channels d

unfoldable pub validate_channels_key : Resolver → Option Json → Checked Json
unfolding validate_channels_for
validate_channels_key net none = ok no_channels
validate_channels_key net (some null) = ok no_channels
validate_channels_key net (some (obj channels)) = do
  checked ← validate_channels_for net channels
  ok (obj (field "channels" (obj checked) end))
validate_channels_key net (some v) = refused "channels"

unfoldable pub validate_principal : Resolver → String → Json → Checked Json
unfolding validate_channels_key
validate_principal net pid null = if pid == "" then refused "principal" else ok no_channels
validate_principal net pid (obj entry) = do
  need (not (pid == "")) "principal"
  need (only_channels entry) "principal"
  validate_channels_key net (get "channels" entry)
validate_principal net pid v = refused "principal"

unfoldable pub validate_principals : Resolver → Fields → Checked Fields
unfolding each_field validate_principal
validate_principals net principals = each_field (validate_principal net) principals

-- the channel refers to a vault
abbrev secret_is_vault : Json → Bool
secret_is_vault (obj cfg) = elim (as_str (get "secret_uri" cfg)) [
  | none ↦ false
  | some s ↦ is_vault_uri s
]
secret_is_vault v = false

unfoldable pub channels_need_vault : Fields → Bool
unfolding is_vault_uri
channels_need_vault end = false
channels_need_vault (field kind v d) = secret_is_vault v || channels_need_vault d

-- `_channel_table_needs_vault`
unfoldable pub table_needs_vault : Fields → Bool
unfolding channels_need_vault
table_needs_vault end = false
table_needs_vault (field pid v d) =
    elim (as_obj (some v)) [ none ↦ false | some channels ↦ channels_need_vault channels ]
    || table_needs_vault d
