-- ===== src/Config/References.antt =====
-- Every name that a route of a loaded configuration mentions is declared.
use mathlib.Core.Path.{subst}
use agent_wake.Prelude.{
  String, ◌≡◌, refl, sym, inl, inr, true, not, ◌&&◌, ◌||◌, Option, none, some, List, ◌∷◌, ◌==◌,
  eq_refl, map, find, All, Bool-cases,
}
use agent_wake.Json.{
  Json, Items, Fields, null, str, arr, obj, nil, cons, end, field, get, py_str, elements,
}
use agent_wake.Netguard.{Resolver}
use agent_wake.Addressing.Legacy.{
  legacy_destinations, legacy_routes, legacy_destination, legacy_route, table, derive_from_legacy,
}
use agent_wake.Addressing.Tables.{
  Destination, Route, to_destination, destinations_of, named, destination_names, to_route,
  routes_of,
}
use agent_wake.Config.Checked.{
  ok, refused, need-then, >>=-inv, is_none, is_filled, is_count, all_items,
}
use agent_wake.Config.Each.{
  AllFields, AllItems, AllFields-map, ok_inj, each_field-All, each_item-All, all_items-All, both,
}
use agent_wake.Config.Tables.{
  has_key, is_sender, declared_or_none, named_destinations, no_items, owned, is_declared,
  check_destination, check_named_destination, validate_destinations, check_route, check_route_value,
  validate_routes,
}
use agent_wake.Config.Channels.{validate_principals}
use agent_wake.Config.Load.{Tables, v2_tables, v1_tables, tables_for, uses_v2, legacy_delivery}

-- the table has an entry of the name
abbrev pub Found : List Destination → String → Type 0
Found table name = (x : Destination) × (named name table ≡ some x)

abbrev pub IsObject : String → Json → Type 0
IsObject k v = (d : Fields) × (v ≡ obj d)

-- more entries in front hide no name
Found-cons :
    (table : List Destination) (d : Destination) (name : String)
    → Found table name
    → Found (d ∷ table) name
unfolding named find
Found-cons table d name (x, e) = elim (Bool-cases (d.name == name)) [
  | inl y ↦ (d, rw y refl)
  | inr n ↦ (x, rw n e)
]

Found-destinations_of :
    (ds : Fields) (name : String)
    → AllFields IsObject ds
    → has_key name ds ≡ true
    → Found (destinations_of ds) name
unfolding destinations_of named find get to_destination
Found-destinations_of end name objects h = absurd (cc)
Found-destinations_of (field k v ds) name ((d, is), objects) h = elim (Bool-cases (k == name)) [
  | inl y ↦ (to_destination k d, rw (is, y) refl)
  | inr n ↦
      let (x, e) = Found-destinations_of ds name objects (rw (n, has_key) at h) in (x, rw (is, n) e)
]

-- the value is a route, and each destination that it names is in the table
abbrev Leads : List Destination → Json → Type 0
Leads table v =
    (entry : Fields) × (v ≡ obj entry)
    × All (Found table) (destination_names (get "destinations" entry))

-- the items of a list of declared names
Found-elements :
    (ds : Fields) (xs : Items)
    → AllFields IsObject ds
    → AllItems (λ v. is_declared ds v ≡ true) xs
    → All (Found (destinations_of ds)) (map py_str (elements xs))
unfolding elements py_str
Found-elements ds nil objects h = tt
Found-elements ds (cons (str s) xs) objects h = (
  Found-destinations_of ds s objects (both (not (s == "")) (has_key s ds) h.0).1,
  Found-elements ds xs objects h.1,
)
Found-elements ds (cons v xs) objects h = absurd (cc)

Leads-check_route :
    (senders ds principals : Fields) (v v' : Json)
    → AllFields IsObject ds
    → check_route_value senders ds principals v ≡ ok v'
    → Leads (destinations_of ds) v'
unfolding check_route get destination_names
Leads-check_route senders ds principals (obj entry) v' objects h =
    let (_, h1) = need-then (is_sender senders (get "sender" entry)) "sender" _ h in
    let (_, h2) =
      need-then (declared_or_none principals (get "principal" entry)) "principal" _ h1 in
    let (xs, _, h3) = >>=-inv (named_destinations (get "destinations" entry)) _ h2 in
    let (declared, h4) = need-then (all_items (is_declared ds) xs) "destinations" _ h3 in
    let (_, h5) = need-then (not (no_items xs && is_none (get "principal" entry))) "route" _ h4 in
    let (_, h6) = need-then (owned ds (get "principal" entry) xs) "principal" _ h5 in
    subst (Leads (destinations_of ds)) (ok_inj h6)
      (_, refl, Found-elements ds xs objects (all_items-All (is_declared ds) xs declared))
Leads-check_route senders ds principals v v' objects h = absurd (cc)

-- each route of a list leads to destinations of a table
abbrev pub RoutesLead : List Destination → List Route → Type 0
RoutesLead table rs = All (λ r. All (Found table) r.destinations) rs

Leads-routes_of :
    (table : List Destination) (rs : Items)
    → AllItems (Leads table) rs
    → RoutesLead table (routes_of rs)
unfolding routes_of to_route
Leads-routes_of table nil h = tt
Leads-routes_of table (cons v rs) ((entry, is, found), rest) =
    rw is (found, Leads-routes_of table rs rest)

IsObject-check_destination :
    (principals info : Fields) (k : String) (v' : Json)
    → check_destination principals info ≡ ok v'
    → IsObject k v'
unfolding check_destination
IsObject-check_destination principals info k v' h =
    let adapter = get "adapter" info in
    let session = get "session" info in
    let (_, h1) = need-then (is_none adapter || is_filled adapter) "adapter" _ h in
    let (_, h2) = need-then (is_none session || is_filled session) "session" _ h1 in
    let (_, h3) = need-then (is_none session || not (is_none adapter)) "session" _ h2 in
    let (_, h4) = need-then (declared_or_none principals (get "principal" info)) "principal" _ h3 in
    let (_, h5) =
      need-then (is_none (get "max_connections" info) || is_count (get "max_connections" info))
        "max_connections" _ h4 in
    (_, sym (ok_inj h5))

IsObject-destination :
    (principals : Fields) (k : String) (v v' : Json)
    → check_named_destination principals k v ≡ ok v'
    → IsObject k v'
unfolding check_named_destination
IsObject-destination principals k (obj info) v' h = elim (Bool-cases (k == "")) [
  | inl y ↦ absurd (let e : refused "destination" ≡ ok v' = rw y at h in cc)
  | inr n ↦ IsObject-check_destination principals info k v' (rw n at h)
]
IsObject-destination principals k v v' h = absurd (cc)

IsObject-validate :
    (raw : Option Json) (principals ds : Fields)
    → validate_destinations raw principals ≡ ok ds
    → AllFields IsObject ds
unfolding validate_destinations
IsObject-validate none principals ds h = subst (AllFields IsObject) (ok_inj h) tt
IsObject-validate (some null) principals ds h = subst (AllFields IsObject) (ok_inj h) tt
IsObject-validate (some (obj raw)) principals ds h =
    each_field-All IsObject (check_named_destination principals) (IsObject-destination principals)
      raw ds h
IsObject-validate (some v) principals ds h = absurd (cc)

Leads-validate :
    (raw : Option Json) (senders ds principals : Fields) (rs : Items)
    → AllFields IsObject ds
    → validate_routes raw senders ds principals ≡ ok rs
    → AllItems (Leads (destinations_of ds)) rs
unfolding validate_routes
Leads-validate none senders ds principals rs objects h =
    subst (AllItems (Leads (destinations_of ds))) (ok_inj h) tt
Leads-validate (some null) senders ds principals rs objects h =
    subst (AllItems (Leads (destinations_of ds))) (ok_inj h) tt
Leads-validate (some (arr raw)) senders ds principals rs objects h =
    each_item-All (Leads (destinations_of ds)) (check_route_value senders ds principals)
      (λ v v' e. Leads-check_route senders ds principals v v' objects e) raw rs h
Leads-validate (some v) senders ds principals rs objects h = absurd (cc)

-- each legacy source has a destination of its name, and a route that leads there
FoundAll : List Destination → Fields → Type 0
FoundAll table senders = AllFields (λ k v. Found table k) senders

Found-self :
    (table : List Destination) (k : String) (d : Fields) → Found (to_destination k d ∷ table) k
unfolding named find to_destination
Found-self table k d = (to_destination k d, rw eq_refl refl)

-- the tables of the addressing model, in which all that a route names is found
abbrev pub Closed : Tables → Type 0
Closed t = RoutesLead (destinations_of t.destinations) (routes_of t.routes)

Closed-v2_tables :
    (net : Resolver) (senders raw : Fields) (t : Tables)
    → v2_tables net senders raw ≡ ok t
    → Closed t
unfolding v2_tables
Closed-v2_tables net senders raw t h =
    let (principals, _, h1) = >>=-inv (validate_principals net (table "principals" raw)) _ h in
    let (ds, objects, h2) =
      >>=-inv (validate_destinations (get "destinations" raw) principals) _ h1 in
    let (rs, leads, h3) = >>=-inv (validate_routes (get "routes" raw) senders ds principals) _ h2 in
    let open_routes =
      Leads-validate (get "routes" raw) senders ds principals rs
        (IsObject-validate (get "destinations" raw) principals ds objects) leads in
    subst Closed (ok_inj h3) (Leads-routes_of (destinations_of ds) rs open_routes)

legacy-Leads :
    (big : List Destination) (senders : Fields)
    → FoundAll big senders
    → AllItems (Leads big) (legacy_routes senders)
unfolding legacy_routes legacy_route FoundAll destination_names get elements py_str
legacy-Leads big end h = tt
legacy-Leads big (field k (obj info) senders) h =
    ((_, refl, (h.0, tt)), legacy-Leads big senders h.1)
legacy-Leads big (field k v senders) h = legacy-Leads big senders h.1

FoundAll-legacy :
    (routing senders : Fields)
    → AllFields IsObject senders
    → FoundAll (destinations_of (legacy_destinations routing senders)) senders
unfolding legacy_destinations legacy_destination destinations_of FoundAll
FoundAll-legacy routing end h = tt
FoundAll-legacy routing (field k (obj info) senders) h =
    let rest = destinations_of (legacy_destinations routing senders) in
    (
      Found-self rest k _,
      AllFields-map (λ j v. Found rest j) _ (λ j v f. Found-cons rest _ j f) senders
          (FoundAll-legacy routing senders h.1),
    )
FoundAll-legacy routing (field k v senders) h = absurd (let e = h.0.1 in cc)

Closed-v1_tables :
    (net : Resolver) (senders routing raw : Fields) (t : Tables)
    → AllFields IsObject senders
    → v1_tables net senders routing raw ≡ ok t
    → Closed t
unfolding v1_tables derive_from_legacy
Closed-v1_tables net senders routing raw t objects h =
    let (delivery, _, h1) = >>=-inv (legacy_delivery net (get "delivery" raw)) _ h in
    let big = destinations_of (legacy_destinations routing senders) in
    subst Closed (ok_inj h1) (
      Leads-routes_of big (legacy_routes senders)
        (legacy-Leads big senders (FoundAll-legacy routing senders objects)))

pub Closed-tables_for :
    (net : Resolver) (senders routing raw : Fields) (t : Tables)
    → AllFields IsObject senders
    → tables_for net senders routing raw ≡ ok t
    → Closed t
unfolding tables_for
Closed-tables_for net senders routing raw t objects h = elim (Bool-cases (uses_v2 raw)) [
  | inl y ↦ Closed-v2_tables net senders raw t (rw y at h)
  | inr n ↦ Closed-v1_tables net senders routing raw t objects (rw n at h)
]
