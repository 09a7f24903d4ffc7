-- ===== src/Addressing/Identity.antt =====
-- What a legacy file means, and what a route does not grant.
use agent_wake.Prelude.{
  String, ◌≡◌, ◌≢◌, refl, Bool, false, ◌&&◌, ◌||◌, none, List, [], ◌∷◌, ◌==◌, arith, any, find,
  eq_iff,
}
use agent_wake.Json.{
  Json, Fields, str, arr, obj, nil, cons, end, field, get, put, get-put, as_obj, as_arr, py_str,
  elements, text_at,
}
use agent_wake.Addressing.Legacy.{
  or_null, table, derive_from_legacy, legacy_view, legacy_destinations, legacy_routes,
}
use agent_wake.Addressing.Tables.{
  Destination, destination_table, route_table, destinations_of, routes_of, to_route, sender,
  sender_table,
}
use agent_wake.Addressing.Resolve.{
  pick, expand, reaches, is_from, routed_destinations, out_of_band_principals,
}
use agent_wake.Addressing.Reach.{some_expands, routed_expands}

-- the name stands in a table of sources with a dictionary
unfoldable pub is_source : String → Fields → Bool
is_source n end = false
is_source n (field m (obj info) sources) = m == n || is_source n sources
is_source n (field m _ sources) = is_source n sources

named-legacy :
    (n : String) (routing sources : Fields)
    → reaches n (destinations_of (legacy_destinations routing sources)) ≡ is_source n sources
unfolding destinations_of legacy_destinations is_source reaches any
named-legacy n routing end = refl
named-legacy n routing (field m (obj info) sources) = rw (named-legacy n routing sources)
named-legacy n routing (field m _ sources) = named-legacy n routing sources

reaches-pick_one :
    (n m : String) (dests : List Destination)
    → reaches n (pick (m ∷ []) dests) ≡ ((m == n) && reaches m dests)
unfolding pick reaches any find
reaches-pick_one n m [] = ground arith
reaches-pick_one n m (d ∷ dests) =
    ground (arith, eq_iff d.name m, eq_iff d.name n, eq_iff m n, reaches-pick_one n m dests)

-- the route of a legacy source reaches the destination of its own name
route-legacy :
    (s n m : String) (info : Fields) (dests : List Destination)
    → let f = field "sender" (str m) (
        field "principal"
          (or_null (get "principal_id" info))
          (field "destinations" (arr (cons (str m) nil)) (field "origin" (str "legacy") end))) in
      (is_from s (to_route f) && reaches n (expand dests (to_route f)))
      ≡ ((m == s || m == "*") && ((m == n) && reaches m dests))
unfolding to_route text_at get py_str elements is_from
route-legacy s n m info dests = unfold expand in rw (reaches-pick_one n m dests)

some_expands-legacy :
    (s n : String) (dests : List Destination) (sources : Fields)
    → some_expands s dests n (routes_of (legacy_routes sources))
      ≡ (is_source n sources && (reaches n dests && (n == s || n == "*")))
unfolding routes_of legacy_routes is_source any
some_expands-legacy s n dests end = refl
some_expands-legacy s n dests (field m (obj info) sources) =
    rw (route-legacy s n m info dests, some_expands-legacy s n dests sources)
      (ground (arith, eq_iff m n, eq_iff m s, eq_iff n s, eq_iff m "*", eq_iff n "*"))
some_expands-legacy s n dests (field m _ sources) = some_expands-legacy s n dests sources

-- In a configuration that has only the legacy tables, a sender reaches exactly the destination of its
-- own name, if that is a source, and the destination of a source named `*`, which every sender reaches.
pub legacy_reach :
    (cfg : Fields) (s n : String)
    → get "destinations" cfg ≡ none
    → get "routes" cfg ≡ none
    → reaches n (routed_destinations cfg s)
      ≡ (is_source n (table "sources" cfg) && (n == s || n == "*"))
legacy_reach cfg s n hd hr =
    let sources = table "sources" cfg in
    let routing = table "routing" cfg in
    let dests = destinations_of (legacy_destinations routing sources) in
    let ed : destination_table cfg ≡ dests =
      unfold destination_table derive_from_legacy legacy_view as_obj in
      rw (hd, destination_table) in
    let er : route_table cfg ≡ routes_of (legacy_routes sources) =
      unfold route_table derive_from_legacy legacy_view as_arr in rw (hr, route_table) in
    rw
      (
        routed_expands cfg s n,
        ed,
        er,
        some_expands-legacy s n dests sources,
        named-legacy n routing sources,
      )
      (ground arith)

-- Out-of-band authority is declared at the sender and nowhere else: no change to any other table of
-- the configuration, the routes among them, grants or takes any of it.
pub out_of_band-put :
    (cfg : Fields) (s k : String) (v : Json)
    → k ≢ "senders"
    → k ≢ "sources"
    → out_of_band_principals (put k v cfg) s ≡ out_of_band_principals cfg s
unfolding out_of_band_principals sender
out_of_band-put cfg s k v h h' =
    let e : get "senders" (put k v cfg) ≡ get "senders" cfg =
      rw get-put (ground (arith, eq_iff k "senders")) in
    let e' : get "sources" (put k v cfg) ≡ get "sources" cfg =
      rw get-put (ground (arith, eq_iff k "sources")) in
    let t : sender_table (put k v cfg) ≡ sender_table cfg =
      unfold sender_table in ground (arith, e, e') in
    rw (t, sender, out_of_band_principals)
