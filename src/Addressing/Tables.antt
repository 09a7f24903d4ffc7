-- ===== src/Addressing/Tables.antt =====
-- The accessors of addressing.py. They read a normalised configuration, or derive from a legacy one.
use agent_wake.Prelude.{
  ℕ, String, Option, none, some, Bool, true, false, List, [], ◌∷◌, map, ◌==◌, if◌then◌else◌, find,
}
use agent_wake.Json.{
  Json, Items, Fields, int, pos, str, arr, obj, nil, cons, end, field, get, as_obj, as_str, as_arr,
  py_str, elements, entries, text_at,
}
use agent_wake.Addressing.Legacy.{legacy_view, table}

pub record Destination : Type 0 where
  pub name : String
  -- none is ANY_ADAPTER
  pub adapter : Option String
  pub session : Option String
  pub principal : Option String
  pub max_connections : Option ℕ

unfoldable pub session_scoped : Destination → Bool
session_scoped d = elim d.session [ none ↦ false | some _ ↦ true ]

unfoldable pub accepts_adapter : Destination → String → Bool
accepts_adapter d adapter = elim d.adapter [ none ↦ true | some a ↦ a == adapter ]

abbrev put_given : String → Option String → Fields → Fields
put_given k none d = d
put_given k (some s) d = field k (str s) d

-- the `destination` block of a wake frame
unfoldable pub to_frame : Destination → Fields
to_frame d = field "name" (str d.name) (
    put_given "adapter" d.adapter
      (put_given "session" d.session (put_given "principal" d.principal end)))

pub record Route : Type 0 where
  pub sender : String
  pub principal : Option String
  pub destinations : List String
  pub origin : String

-- `cfg.get("senders")` if that is a dictionary, else `sources`
unfoldable pub sender_table : Fields → Fields
sender_table cfg = elim (as_obj (get "senders" cfg)) [ some d ↦ d | none ↦ table "sources" cfg ]

unfoldable pub sender : Fields → String → Option Fields
unfolding sender_table
sender cfg name = as_obj (get name (sender_table cfg))

unfoldable pub principal_table : Fields → Fields
unfolding legacy_view
principal_table cfg = elim (as_obj (get "principals" cfg)) [
  | some d ↦ d
  | none ↦ (legacy_view cfg).principals
]

abbrev as_nat : Option Json → Option ℕ
as_nat (some (int (pos n))) = some n
as_nat _ = none

-- `config.load_config` refuses a field of another type
unfoldable pub to_destination : String → Fields → Destination
to_destination name info = record {
  name = name;
  adapter = as_str (get "adapter" info);
  session = as_str (get "session" info);
  principal = as_str (get "principal" info);
  max_connections = as_nat (get "max_connections" info);
}

-- the loop over `raw.items()`
unfoldable pub destinations_of : Fields → List Destination
unfolding to_destination
destinations_of end = []
destinations_of (field name (obj info) raw) = to_destination name info ∷ destinations_of raw
destinations_of (field name _ raw) = destinations_of raw

-- the values of the dictionary, each under its own name
unfoldable pub destination_table : Fields → List Destination
unfolding destinations_of
destination_table cfg = elim (as_obj (get "destinations" cfg)) [
  | some raw ↦ destinations_of raw
  | none ↦ destinations_of (legacy_view cfg).destinations
]

-- `table.get(name)`
unfoldable pub named : String → List Destination → Option Destination
named name = find (λ d. d.name == name)

unfoldable pub destination : Fields → String → Option Destination
unfolding destination_table named
destination cfg name = named name (destination_table cfg)

-- `entry.get("destinations") or []`, a text being one name, and each name as a text
unfoldable pub destination_names : Option Json → List String
destination_names (some (str s)) = if s == "" then [] else s ∷ []
destination_names (some (arr xs)) = map py_str (elements xs)
destination_names (some (obj d)) = map (λ e. e.0) (entries d)
destination_names _ = []

unfoldable pub to_route : Fields → Route
unfolding destination_names
to_route entry = record {
  sender = text_at "sender" entry;
  principal = as_str (get "principal" entry);
  destinations = destination_names (get "destinations" entry);
  origin = elim (get "origin" entry) [ none ↦ "config" | some v ↦ py_str v ];
}

unfoldable pub routes_of : Items → List Route
unfolding to_route
routes_of nil = []
routes_of (cons (obj entry) raw) = to_route entry ∷ routes_of raw
routes_of (cons _ raw) = routes_of raw

unfoldable pub route_table : Fields → List Route
unfolding routes_of
route_table cfg = elim (as_arr (get "routes" cfg)) [
  | some raw ↦ routes_of raw
  | none ↦ routes_of (legacy_view cfg).routes
]
