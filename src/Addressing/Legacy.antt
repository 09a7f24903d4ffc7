-- ===== src/Addressing/Legacy.antt =====
-- `derive_from_legacy` of addressing.py: the v2 tables of a v0/v1 configuration file.
use agent_wake.Prelude.{String, Option, none, some, ◌==◌, if◌then◌else◌}
use agent_wake.Json.{
  Json, Items, Fields, null, str, arr, obj, nil, cons, end, field, get, put, as_obj, as_str,
}

pub record Legacy : Type 0 where
  pub senders : Fields
  pub destinations : Fields
  pub principals : Fields
  pub routes : Items

-- `d.get(k)`, with None for a missing key
abbrev pub or_null : Option Json → Json
or_null none = null
or_null (some v) = v

-- `d.get(k) or {}` of a table; `config.load_config` refuses a table that is no dictionary
abbrev pub table : String → Fields → Fields
table k cfg = elim (as_obj (get k cfg)) [ none ↦ end | some d ↦ d ]

-- routing[name]["adapter"], where both are there
unfoldable pub legacy_adapter : String → Fields → Json
legacy_adapter name routing = elim (as_obj (get name routing)) [
  | none ↦ null
  | some entry ↦ or_null (get "adapter" entry)
]

unfoldable pub legacy_destination : String → Fields → Fields → Json
unfolding legacy_adapter
legacy_destination name info routing = obj (
    field "adapter" (legacy_adapter name routing)
      (field "session" null (field "principal" (or_null (get "principal_id" info)) end)))

unfoldable pub legacy_route : String → Fields → Json
legacy_route name info = obj (
    field "sender" (str name) (
      field "principal" (or_null (get "principal_id" info))
        (field "destinations" (arr (cons (str name) nil)) (field "origin" (str "legacy") end))))

-- The loop over `sources.items()`, one function for each table that it fills.
unfoldable pub legacy_senders : Fields → Fields
legacy_senders end = end
legacy_senders (field name (obj info) sources) = field name (obj info) (legacy_senders sources)
legacy_senders (field name _ sources) = legacy_senders sources

unfoldable pub legacy_destinations : Fields → Fields → Fields
unfolding legacy_destination
legacy_destinations routing end = end
legacy_destinations routing (field name (obj info) sources) =
    field name (legacy_destination name info routing) (legacy_destinations routing sources)
legacy_destinations routing (field name _ sources) = legacy_destinations routing sources

unfoldable pub legacy_routes : Fields → Items
unfolding legacy_route
legacy_routes end = nil
legacy_routes (field name (obj info) sources) =
    cons (legacy_route name info) (legacy_routes sources)
legacy_routes (field name _ sources) = legacy_routes sources

-- `{pid: {"channels": channels} for pid, channels in delivery.items()}`
unfoldable pub with_channels : Fields → Fields
with_channels end = end
with_channels (field pid channels delivery) =
    field pid (obj (field "channels" channels end)) (with_channels delivery)

-- `if pid and pid not in principals: principals[pid] = {"channels": {}}`
unfoldable pub materialise : Option String → Fields → Fields
materialise none principals = principals
materialise (some pid) principals = if pid == "" then principals else elim (get pid principals) [
  | none ↦ put pid (obj (field "channels" (obj end) end)) principals
  | some _ ↦ principals
]

-- the loop over `destinations.values()`
unfoldable pub materialise_all : Fields → Fields → Fields
unfolding materialise
materialise_all end principals = principals
materialise_all (field name (obj dest) destinations) principals =
    materialise_all destinations (materialise (as_str (get "principal" dest)) principals)
materialise_all (field name _ destinations) principals = materialise_all destinations principals

unfoldable pub derive_from_legacy : Fields → Fields → Fields → Legacy
unfolding legacy_senders legacy_destinations legacy_routes with_channels materialise_all
derive_from_legacy sources routing delivery =
    let destinations = legacy_destinations routing sources in
    record {
      senders = legacy_senders sources;
      destinations = destinations;
      principals = materialise_all destinations (with_channels delivery);
      routes = legacy_routes sources;
    }

-- `_legacy_view`
unfoldable pub legacy_view : Fields → Legacy
legacy_view cfg =
    derive_from_legacy (table "sources" cfg) (table "routing" cfg) (table "delivery" cfg)
