-- ===== src/Config/Load.antt =====
-- `load_config`: the whole of a configuration file.
use agent_wake.Prelude.{
  String, Bool, true, false, not, ◌&&◌, ◌||◌, Option, none, some, List, [], ◌∷◌, if◌then◌else◌,
}
use agent_wake.Json.{
  Json, Items, Fields, null, int, pos, str, arr, obj, end, field, get, as_obj, as_str, truthy,
  is_number,
}
use agent_wake.Netguard.{Resolver}
use agent_wake.Addressing.Legacy.{Legacy, or_null, table, derive_from_legacy}
use agent_wake.Config.Checked.{Checked, ok, refused, crashed, ◌>>=◌, ◌>>◌, need, or_default}
use agent_wake.Config.Blocks.{
  validate_listen_block, validate_state_block, validate_wake_block, validate_vault_block,
}
use agent_wake.Config.Senders.{check_senders, senders_need_vault}
use agent_wake.Config.Channels.{validate_principals, validate_channel_table, table_needs_vault}
use agent_wake.Config.Tables.{has_key, validate_destinations, validate_routes}

-- What the path of the configuration holds.
pub data ConfigFile : Type 0 where
  not_found : ConfigFile
  not_json : ConfigFile
  document : Json → ConfigFile

-- None or a dictionary
abbrev object_or_none : Option Json → Bool
object_or_none none = true
object_or_none (some null) = true
object_or_none (some (obj d)) = true
object_or_none (some v) = false

abbrev pub nested_fields : List String
nested_fields = "sources" ∷ "routing" ∷ "senders" ∷ "destinations" ∷ "principals" ∷ []

unfoldable pub are_objects : List String → Fields → Bool
are_objects [] raw = true
are_objects (k ∷ ks) raw = object_or_none (get k raw) && are_objects ks raw

-- `version in (0, 1, 2)`
unfoldable pub is_version : Json → Bool
is_version v = is_number 0 (some v) || is_number 1 (some v) || is_number 2 (some v)

-- `_reject_mixed_vocabulary`, for each pair of _VOCABULARY_PAIRS
unfoldable pub is_mixed : Fields → Bool
is_mixed raw =
    has_key "sources" raw && has_key "senders" raw
    || has_key "routing" raw && has_key "routes" raw
    || has_key "delivery" raw && has_key "principals" raw

unfoldable pub uses_v2 : Fields → Bool
uses_v2 raw = has_key "senders" raw || has_key "routes" raw || has_key "principals" raw

-- a routing entry is a dictionary, and its adapter, if it has one, a text
abbrev routing_entry : Json → Bool
routing_entry (obj route) = elim (get "adapter" route) [
  | none ↦ true
  | some v ↦ elim (as_str (some v)) [ none ↦ false | some a ↦ true ]
]
routing_entry v = false

unfoldable pub all_routing : Fields → Bool
all_routing end = true
all_routing (field name v d) = routing_entry v && all_routing d

-- `raw.get("routing", {})` and the loop over its items, which raises on None
unfoldable pub check_routing : Option Json → Checked Fields
unfolding all_routing
check_routing none = ok end
check_routing (some (obj routing)) = do need (all_routing routing) "routing"; ok routing
check_routing (some v) = crashed

-- the routing, and the table of the senders, which must not be empty
unfoldable pub routing_of : Fields → Checked Fields
unfolding uses_v2 check_routing
routing_of raw = if uses_v2 raw then ok end else check_routing (get "routing" raw)

unfoldable pub sources_of : Fields → Checked Fields
unfolding uses_v2 truthy
sources_of raw =
    let key = if uses_v2 raw then "senders" else "sources" in
    do need (truthy (get key raw)) "senders"; ok (table key raw)

-- `if vault_cfg is not None: _validate_vault_block(vault_cfg)`
unfoldable pub check_vault_block : Option Json → Checked (Unit {0})
unfolding validate_vault_block
check_vault_block none = ok tt
check_vault_block (some null) = ok tt
check_vault_block (some v) = validate_vault_block v

-- The four tables of the addressing model, and the channels under their old name.
pub record Tables : Type 0 where
  pub principals : Fields
  pub destinations : Fields
  pub routes : Items
  pub delivery : Fields

-- `{pid: entry["channels"] for pid, entry in principals.items() if entry["channels"]}`
abbrev pub keep_channels : String → Option Fields → Fields → Fields
keep_channels pid none rest = rest
keep_channels pid (some end) rest = rest
keep_channels pid (some d) rest = field pid (obj d) rest

unfoldable pub delivery_alias : Fields → Fields
delivery_alias end = end
delivery_alias (field pid (obj entry) d) =
    keep_channels pid (as_obj (get "channels" entry)) (delivery_alias d)
delivery_alias (field pid v d) = delivery_alias d

unfoldable pub v2_tables : Resolver → Fields → Fields → Checked Tables
unfolding validate_principals validate_destinations validate_routes delivery_alias
v2_tables net senders raw = do
  principals ← validate_principals net (table "principals" raw)
  destinations ← validate_destinations (get "destinations" raw) principals
  routes ← validate_routes (get "routes" raw) senders destinations principals
  ok (record {
    principals = principals;
    destinations = destinations;
    routes = routes;
    delivery = delivery_alias principals;
  })

-- `_validate_channel_table(delivery_raw) if delivery_raw is not None else {}`
unfoldable pub legacy_delivery : Resolver → Option Json → Checked Fields
unfolding validate_channel_table
legacy_delivery net none = ok end
legacy_delivery net (some null) = ok end
legacy_delivery net (some v) = validate_channel_table net v

abbrev tables_of : Fields → Legacy → Tables
tables_of delivery derived = record {
  principals = derived.principals;
  destinations = derived.destinations;
  routes = derived.routes;
  delivery = delivery;
}

unfoldable pub v1_tables : Resolver → Fields → Fields → Fields → Checked Tables
unfolding legacy_delivery
v1_tables net senders routing raw = do
  delivery ← legacy_delivery net (get "delivery" raw)
  ok (tables_of delivery (derive_from_legacy senders routing delivery))

unfoldable pub tables_for : Resolver → Fields → Fields → Fields → Checked Tables
unfolding uses_v2 v2_tables v1_tables
tables_for net senders routing raw =
    if uses_v2 raw then v2_tables net senders raw else v1_tables net senders routing raw

abbrev pub without_vault : Bool → Fields → Bool
without_vault needs raw = needs && not (truthy (get "vault" raw))

-- the dictionary that is returned
unfoldable pub normalised : Fields → Fields → Fields → Fields → Fields → Fields → Tables → Fields
normalised raw listen routing senders state wake t =
    field "version" (or_default (get "version" raw) (int (pos 0))) (
      field "listen"
        (obj (
          field "host" (or_default (get "host" listen) (str "127.0.0.1"))
            (field "port" (or_default (get "port" listen) (int (pos 8788))) end)))
        (field "socket_path" (or_null (get "socket_path" raw)) (
          field "senders" (obj senders) (
            field "default_callback_url" (or_null (get "default_callback_url" raw)) (
              field "routing" (obj routing) (
                field "vault" (or_null (get "vault" raw)) (
                  field "state" (obj state) (
                    field "wake" (obj wake) (
                      field "sources" (obj senders) (
                        field "principals" (obj t.principals) (
                          field "destinations" (obj t.destinations) (
                            field "routes" (arr t.routes)
                              (field "delivery" (obj t.delivery) end)))))))))))))

unfoldable pub load_document : Resolver → Fields → Checked Fields
unfolding are_objects is_version is_mixed routing_of sources_of check_senders senders_need_vault
    check_vault_block tables_for table_needs_vault normalised
load_document net raw = do
  need (are_objects nested_fields raw) "objects"
  need (is_version (or_default (get "version" raw) (int (pos 0)))) "version"
  need (not (is_mixed raw)) "vocabulary"
  listen ← validate_listen_block (get "listen" raw)
  routing ← routing_of raw
  sources ← sources_of raw
  state ← validate_state_block (get "state" raw)
  wake ← validate_wake_block (get "wake" raw)
  senders ← check_senders (or_null (get "default_callback_url" raw)) sources
  need (not (without_vault (senders_need_vault senders) raw)) "vault"
  check_vault_block (get "vault" raw)
  t ← tables_for net senders routing raw
  need (not (without_vault (table_needs_vault t.delivery) raw)) "vault"
  ok (normalised raw listen routing senders state wake t)

-- `load_config`
unfoldable pub load_config : Resolver → ConfigFile → Checked Fields
unfolding load_document
load_config net not_found = refused "path"
load_config net not_json = refused "json"
load_config net (document (obj raw)) = load_document net raw
load_config net (document v) = refused "document"
