-- ===== src/Config/Tables.antt =====
-- The `destinations` and `routes` of a v2 configuration file.
use agent_wake.Prelude.{
  String, Bool, true, false, not, ◌&&◌, ◌||◌, Option, none, some, ◌==◌, if◌then◌else◌,
}
use agent_wake.Json.{
  Json, Items, Fields, null, str, arr, obj, nil, cons, end, field, get, as_str, as_obj,
}
use agent_wake.Addressing.Legacy.{or_null}
use agent_wake.Config.Checked.{
  Checked, ok, refused, ◌>>=◌, ◌>>◌, need, is_none, is_filled, is_count, all_items, each_field,
  each_item,
}

-- `k in d`
abbrev pub has_key : String → Fields → Bool
has_key k d = elim (get k d) [ none ↦ false | some v ↦ true ]

-- None, or a name that is declared
abbrev pub declared_or_none : Fields → Option Json → Bool
declared_or_none table none = true
declared_or_none table (some null) = true
declared_or_none table (some (str s)) = not (s == "") && has_key s table
declared_or_none table (some v) = false

unfoldable pub check_destination : Fields → Fields → Checked Json
check_destination principals info = do
  let adapter = get "adapter" info
  let session = get "session" info
  let principal = get "principal" info
  let cap = get "max_connections" info
  need (is_none adapter || is_filled adapter) "adapter"
  need (is_none session || is_filled session) "session"
  need (is_none session || not (is_none adapter)) "session"
  need (declared_or_none principals principal) "principal"
  need (is_none cap || is_count cap) "max_connections"
  ok (
      obj (
        field "adapter" (or_null adapter) (
          field "session" (or_null session)
            (field "principal" (or_null principal) (field "max_connections" (or_null cap) end)))))

-- a round of the loop over the destinations
unfoldable pub check_named_destination : Fields → String → Json → Checked Json
unfolding check_destination
check_named_destination principals name (obj info) =
    if name == "" then refused "destination" else check_destination principals info
check_named_destination principals name v = refused "destination"

-- `_validate_destinations_block`
unfoldable pub validate_destinations : Option Json → Fields → Checked Fields
unfolding each_field check_named_destination
validate_destinations none principals = ok end
validate_destinations (some null) principals = ok end
validate_destinations (some (obj raw)) principals =
    each_field (check_named_destination principals) raw
validate_destinations (some v) principals = refused "destinations"

-- the `destinations` of a route, as a list
unfoldable pub named_destinations : Option Json → Checked Items
named_destinations none = ok nil
named_destinations (some null) = ok nil
named_destinations (some (str d)) = ok (cons (str d) nil)
named_destinations (some (arr ds)) = ok ds
named_destinations (some v) = refused "destinations"

abbrev pub is_declared : Fields → Json → Bool
is_declared table (str s) = not (s == "") && has_key s table
is_declared table v = false

-- `destinations[d].get("principal") == principal`
unfoldable pub owns : Fields → String → Json → Bool
owns destinations principal (str d) = elim (as_obj (get d destinations)) [
  | none ↦ false
  | some info ↦ elim (as_str (get "principal" info)) [ none ↦ false | some p ↦ p == principal ]
]
owns destinations principal v = false

-- a route with a principal names only destinations of that principal
abbrev pub owned : Fields → Option Json → Items → Bool
owned destinations principal ds = elim (as_str principal) [
  | none ↦ true
  | some p ↦ all_items (owns destinations p) ds
]

abbrev pub no_items : Items → Bool
no_items nil = true
no_items (cons v vs) = false

-- `*`, or a sender that is declared
abbrev pub is_sender : Fields → Option Json → Bool
is_sender senders (some (str s)) = not (s == "") && (s == "*" || has_key s senders)
is_sender senders v = false

unfoldable pub check_route : Fields → Fields → Fields → Fields → Checked Json
unfolding named_destinations all_items owns
check_route senders destinations principals entry = do
  let principal = get "principal" entry
  need (is_sender senders (get "sender" entry)) "sender"
  need (declared_or_none principals principal) "principal"
  ds ← named_destinations (get "destinations" entry)
  need (all_items (is_declared destinations) ds) "destinations"
  need (not (no_items ds && is_none principal)) "route"
  need (owned destinations principal ds) "principal"
  ok (
      obj (
        field "sender" (or_null (get "sender" entry)) (
          field "principal" (or_null principal)
            (field "destinations" (arr ds) (field "origin" (str "config") end)))))

abbrev pub check_route_value : Fields → Fields → Fields → Json → Checked Json
check_route_value senders destinations principals (obj entry) =
    check_route senders destinations principals entry
check_route_value senders destinations principals v = refused "route"

-- `_validate_routes_block`
unfoldable pub validate_routes : Option Json → Fields → Fields → Fields → Checked Items
unfolding each_item check_route
validate_routes none senders destinations principals = ok nil
validate_routes (some null) senders destinations principals = ok nil
validate_routes (some (arr raw)) senders destinations principals =
    each_item (check_route_value senders destinations principals) raw
validate_routes (some v) senders destinations principals = refused "routes"
