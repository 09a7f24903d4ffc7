-- ===== src/Addressing/Resolve.antt =====
-- The resolution of addressing.py: the destinations that a sender reaches, and the narrowing.
use agent_wake.Prelude.{
  String, Option, none, some, Bool, true, false, ◌||◌, List, [], ◌∷◌, ◌++◌, map, ◌==◌,
  if◌then◌else◌, keep, any,
}
use agent_wake.Json.{Json, Fields, arr, cons, get, py_str, elements, truthy}
use agent_wake.Addressing.Tables.{Destination, Route, destination_table, route_table, named, sender}

-- `[table[d] for d in names if d in table]`
unfoldable pub pick : List String → List Destination → List Destination
unfolding named
pick [] dests = []
pick (n ∷ ns) dests = elim (named n dests) [ none ↦ pick ns dests | some d ↦ d ∷ pick ns dests ]

unfoldable pub owned_by : String → Destination → Bool
owned_by principal d = elim d.principal [ none ↦ false | some p ↦ p == principal ]

-- `_expand`, over the destination table
unfoldable pub expand : List Destination → Route → List Destination
unfolding pick owned_by
expand dests r = elim r.destinations [
  | n ∷ ns ↦ pick (n ∷ ns) dests
  | [] ↦ elim r.principal [ none ↦ [] | some p ↦ if p == "" then [] else keep (owned_by p) dests ]
]

-- the names in a list of destinations
unfoldable pub reaches : String → List Destination → Bool
reaches n = any (λ d. d.name == n)

-- `seen.setdefault(dest.name, dest)` for each destination of a route
unfoldable pub add_all : List Destination → List Destination → List Destination
unfolding reaches
add_all seen [] = seen
add_all seen (d ∷ ds) = add_all (if reaches d.name seen then seen else seen ++ d ∷ []) ds

-- `route.sender in (sender_name, "*")`
unfoldable pub is_from : String → Route → Bool
is_from sender_name r = r.sender == sender_name || r.sender == "*"

-- the loop over the routes
unfoldable pub collect :
    String → List Destination → List Destination → List Route → List Destination
unfolding expand add_all is_from
collect sender_name dests seen [] = seen
collect sender_name dests seen (r ∷ rs) =
    collect sender_name dests
      (if is_from sender_name r then add_all seen (expand dests r) else seen) rs

unfoldable pub routed_destinations : Fields → String → List Destination
unfolding collect
routed_destinations cfg sender_name =
    collect sender_name (destination_table cfg) [] (route_table cfg)

-- the set that a non-empty list names
abbrev pub declared : Option Json → Option (List String)
declared (some (arr (cons x xs))) = some (map py_str (elements (cons x xs)))
declared _ = none

-- `none` is a sender that declares no authorization
unfoldable pub out_of_band_principals : Fields → String → Option (List String)
unfolding sender
out_of_band_principals cfg sender_name = elim (sender cfg sender_name) [
  | none ↦ none
  | some entry ↦ declared (get "allowed_target_principals" entry)
]

-- The result of `resolve`: the destinations, or the code of the AddressingError.
pub data Resolution : Type 0 where
  found : List Destination → Resolution
  destination_not_routed principal_not_routed : Resolution

unfoldable pub narrow_principal : Option String → List Destination → Resolution
unfolding owned_by
narrow_principal none allowed = found allowed
narrow_principal (some p) allowed = elim (keep (owned_by p) allowed) [
  | [] ↦ principal_not_routed
  | d ∷ ds ↦ found (d ∷ ds)
]

unfoldable pub narrow : Option String → Option String → List Destination → Resolution
unfolding narrow_principal
narrow none principal allowed = narrow_principal principal allowed
narrow (some name) principal allowed = elim (keep (λ d. d.name == name) allowed) [
  | [] ↦ destination_not_routed
  | d ∷ ds ↦ narrow_principal principal (d ∷ ds)
]

unfoldable pub resolve : Fields → String → Option String → Option String → Resolution
unfolding narrow
resolve cfg sender_name destination_name principal_id =
    narrow destination_name principal_id (routed_destinations cfg sender_name)

abbrev given : Option String → Bool
given none = false
given (some s) = if s == "" then false else true

abbrev or_missing : Option Fields → String → Option Json
or_missing none k = none
or_missing (some d) k = get k d

abbrev text_of : Option Json → Option String
text_of none = none
text_of (some v) = some (py_str v)

-- `entry.get("identity") or entry.get("principal_id")`, as a text, if it is truthy
unfoldable pub declared_identity : Option Fields → Option String
declared_identity entry =
    if truthy (or_missing entry "identity")
    then text_of (or_missing entry "identity")
    else if truthy (or_missing entry "principal_id")
    then text_of (or_missing entry "principal_id")
    else none

-- an asserted identity that is an empty text is none
unfoldable pub trigger_identity_for : Fields → String → Option String → Option String
unfolding declared_identity sender
trigger_identity_for cfg sender_name asserted =
    if given asserted then asserted else declared_identity (sender cfg sender_name)
