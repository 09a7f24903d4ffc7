-- ===== src/Config/Blocks.antt =====
-- The blocks of a configuration file that stand alone: `listen`, `state`, `wake` and `vault`.
use agent_wake.Prelude.{
  String, Bool, true, false, not, ◌&&◌, ◌||◌, Option, none, some, List, [], ◌∷◌, ◌==◌,
  if◌then◌else◌, contains, eqb,
}
use Prim.Native.String.{◌++◌, [] as empty_text, ◌∷◌ as text_cons}
use Prim.Native.Char.{code}
use agent_wake.Json.{
  pos, Json, Items, Fields, null, bool, int, float, str, arr, obj, nil, cons, end, field, get, put,
  as_str, decimal,
}
use agent_wake.Config.Checked.{
  Checked, ok, refused, crashed, ◌>>=◌, ◌>>◌, need, is_none, is_filled, is_count, is_port, is_bool,
  is_positive_number, has_ink, or_default, all_items,
}

-- `_validate_listen_block`
unfoldable pub check_listen : Fields → Checked Fields
check_listen listen = do
  need (is_none (get "host" listen) || is_filled (get "host" listen)) "listen.host"
  need (is_none (get "port" listen) || is_port (get "port" listen)) "listen.port"
  ok listen

unfoldable pub validate_listen_block : Option Json → Checked Fields
unfolding check_listen
validate_listen_block none = ok end
validate_listen_block (some null) = ok end
validate_listen_block (some (obj listen)) = check_listen listen
validate_listen_block (some v) = refused "listen"

-- _STATE_INT_FIELDS and _VALID_DELIVERY_MODES
abbrev pub state_int_fields : List String
state_int_fields =
    "dedupe_ttl_seconds" ∷ "dedupe_max_rows" ∷ "pending_ttl_seconds" ∷ "pending_max_rows"
    ∷ "pending_max_attempts" ∷ "dead_letter_ttl_seconds" ∷ "dead_letter_max_rows" ∷ []

abbrev pub delivery_modes : List String
delivery_modes = "live_only" ∷ "next_session" ∷ "managed_session" ∷ []

abbrev pub put_some : String → Option Json → Fields → Fields
put_some k none d = d
put_some k (some null) d = d
put_some k (some v) d = put k v d

unfoldable pub check_counts : List String → Fields → Fields → Checked Fields
check_counts [] state result = ok result
check_counts (k ∷ ks) state result = do
  need (is_none (get k state) || is_count (get k state)) k
  check_counts ks state (put_some k (get k state) result)

-- `mode not in _VALID_DELIVERY_MODES`, which raises on a list or a dictionary
unfoldable pub check_mode : Option Json → Fields → Checked Fields
check_mode none result = ok result
check_mode (some null) result = ok result
check_mode (some (str mode)) result =
    if contains delivery_modes mode
    then ok (put "default_delivery" (str mode) result)
    else refused "state.default_delivery"
check_mode (some (arr xs)) result = crashed
check_mode (some (obj d)) result = crashed
check_mode (some v) result = refused "state.default_delivery"

unfoldable pub check_state : Fields → Checked Fields
unfolding check_counts check_mode
check_state state = do
  let enabled = or_default (get "enabled" state) (bool true)
  need (is_none (get "dir" state) || is_filled (get "dir" state)) "state.dir"
  need (is_bool (some enabled)) "state.enabled"
  result ←
      check_counts state_int_fields state
        (put "enabled" enabled (put_some "dir" (get "dir" state) end))
  check_mode (get "default_delivery" state) result

unfoldable pub validate_state_block : Option Json → Checked Fields
unfolding check_state
validate_state_block none = ok end
validate_state_block (some null) = ok end
validate_state_block (some (obj state)) = check_state state
validate_state_block (some v) = refused "state"

-- DEFAULT_INGEST_RATE_LIMIT and DEFAULT_INGEST_RATE_BURST
abbrev pub default_rate_limit : Json
default_rate_limit = float "10.0"

abbrev pub default_rate_burst : Json
default_rate_burst = int (pos 20)

abbrev pub default_wake : Fields
default_wake =
    field "ingest_rate_limit" default_rate_limit (field "ingest_rate_burst" default_rate_burst end)

-- `float(rate)` of an int below 10 ^ 16
abbrev as_float : Json → Json
as_float (int (pos n)) = float (decimal n ++ ".0")
as_float v = v

abbrev inked : Json → Bool
inked (str s) = has_ink s
inked v = false

abbrev key_list : Json → Items
key_list (str s) = cons (str s) nil
key_list (arr xs) = xs
key_list v = nil

abbrev is_empty_list : Items → Bool
is_empty_list nil = true
is_empty_list (cons x xs) = false

-- blanks and commas aside, the text is not empty: it has a part between commas that is not blank
unfoldable pub has_part : String → Bool
has_part empty_text = false
has_part (text_cons c s) = not (eqb (code c) 44) && has_ink (text_cons c empty_text) || has_part s

abbrev parted : Json → Bool
parted (str s) = has_part s
parted v = false

unfoldable pub any_item : (Json → Bool) → Items → Bool
any_item p nil = false
any_item p (cons v vs) = p v || any_item p vs

unfoldable pub check_keys : Json → Fields → Checked Fields
unfolding all_items any_item has_part has_ink
check_keys secret result = do
  need (not (is_empty_list (key_list secret))) "wake.hmac_secret"
  need (all_items inked (key_list secret)) "wake.hmac_secret"
  need (any_item parted (key_list secret)) "wake.hmac_secret"
  ok (put "hmac_secret" secret result)

unfoldable pub check_hmac : Option Json → Fields → Checked Fields
unfolding check_keys
check_hmac none result = ok result
check_hmac (some null) result = ok result
check_hmac (some secret) result = check_keys secret result

unfoldable pub check_wake : Fields → Checked Fields
unfolding check_hmac
check_wake raw = do
  let rate = or_default (get "ingest_rate_limit" raw) default_rate_limit
  let burst = or_default (get "ingest_rate_burst" raw) default_rate_burst
  result ← check_hmac (get "hmac_secret" raw) default_wake
  need (is_positive_number (some rate)) "wake.ingest_rate_limit"
  need (is_count (some burst)) "wake.ingest_rate_burst"
  ok (put "ingest_rate_burst" burst (put "ingest_rate_limit" (as_float rate) result))

-- `_validate_wake_block`
unfoldable pub validate_wake_block : Option Json → Checked Fields
unfolding check_wake
validate_wake_block none = ok default_wake
validate_wake_block (some null) = ok default_wake
validate_wake_block (some (obj raw)) = check_wake raw
validate_wake_block (some v) = refused "wake"

unfoldable pub check_auth : Fields → Checked (Unit {0})
check_auth auth = do
  need (elim (as_str (get "method" auth)) [ none ↦ false | some m ↦ m == "approle" ])
      "vault.auth.method"
  need (is_filled (get "role_id" auth)) "vault.auth.role_id"
  need (is_filled (get "secret_id_file" auth)) "vault.auth.secret_id_file"

abbrev check_auth_block : Option Json → Checked (Unit {0})
check_auth_block (some (obj auth)) = check_auth auth
check_auth_block v = refused "vault.auth"

unfoldable pub check_vault : Fields → Checked (Unit {0})
unfolding check_auth
check_vault vault = do
  need (is_filled (get "addr" vault)) "vault.addr"
  check_auth_block (get "auth" vault)

-- `_validate_vault_block`, of a value that is not None
unfoldable pub validate_vault_block : Json → Checked (Unit {0})
unfolding check_vault
validate_vault_block (obj vault) = check_vault vault
validate_vault_block v = refused "vault"
