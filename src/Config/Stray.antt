-- ===== src/Config/Stray.antt =====
-- Blocks that config.py takes and drops.
use agent_wake.Prelude.{
  String, ◌≡◌, refl, ap, ◌∙◌, inl, inr, Bool, true, false, not, arith, Bool-cases, ◌&&◌, ◌||◌,
  Option, none, some,
}
use agent_wake.Json.{Json, Fields, obj, end, as_obj, int, pos, get, put, get-put, truthy}
use agent_wake.Netguard.{Resolver}
use agent_wake.Addressing.Legacy.{or_null}
use agent_wake.Config.Checked.{ok, ◌>>=◌, ◌>>◌, need, or_default}
use agent_wake.Config.Blocks.{validate_listen_block, validate_state_block, validate_wake_block}
use agent_wake.Config.Senders.{check_senders, senders_need_vault}
use agent_wake.Config.Channels.{table_needs_vault, validate_principals}
use agent_wake.Config.Tables.{has_key, validate_destinations, validate_routes}
use agent_wake.Config.Load.{
  load_document, are_objects, nested_fields, is_version, is_mixed, uses_v2, routing_of, sources_of,
  check_vault_block, tables_for, v1_tables, v2_tables, normalised, delivery_alias, Tables,
}

-- two documents that differ in nothing that the loading reads
record Alike (net : Resolver) (raw raw' : Fields) : Type 0 where
  objects : are_objects nested_fields raw' ≡ are_objects nested_fields raw
  mixed : is_mixed raw' ≡ is_mixed raw
  version : get "version" raw' ≡ get "version" raw
  listen : get "listen" raw' ≡ get "listen" raw
  state : get "state" raw' ≡ get "state" raw
  wake : get "wake" raw' ≡ get "wake" raw
  vault : get "vault" raw' ≡ get "vault" raw
  callback : get "default_callback_url" raw' ≡ get "default_callback_url" raw
  socket : get "socket_path" raw' ≡ get "socket_path" raw
  routing : routing_of raw' ≡ routing_of raw
  sources : sources_of raw' ≡ sources_of raw
  tables :
      (senders routing : Fields)
      → tables_for net senders routing raw' ≡ tables_for net senders routing raw

normalised-Alike :
    (net : Resolver) (raw raw' : Fields)
    → Alike net raw raw'
    → (listen routing senders state wake : Fields) (t : Tables)
    → normalised raw' listen routing senders state wake t
      ≡ normalised raw listen routing senders state wake t
unfolding normalised
normalised-Alike net raw raw' a listen routing senders state wake t =
    rw (a.version, a.socket, a.callback, a.vault) refl

load-Alike :
    (net : Resolver) (raw raw' : Fields)
    → Alike net raw raw'
    → load_document net raw' ≡ load_document net raw
unfolding load_document
load-Alike net raw raw' a = λ i. do
  need (a.objects i) "objects"
  need (is_version (or_default (a.version i) (int (pos 0)))) "version"
  need (not (a.mixed i)) "vocabulary"
  listen ← validate_listen_block (a.listen i)
  routing ← a.routing i
  sources ← a.sources i
  state ← validate_state_block (a.state i)
  wake ← validate_wake_block (a.wake i)
  senders ← check_senders (or_null (a.callback i)) sources
  need (not (senders_need_vault senders && not (truthy (a.vault i)))) "vault"
  check_vault_block (a.vault i)
  t ← a.tables senders routing i
  need (not (table_needs_vault t.delivery && not (truthy (a.vault i)))) "vault"
  ok (normalised-Alike net raw raw' a listen routing senders state wake t i)

abbrev table_of : Option Json → Fields
table_of v = elim (as_obj v) [ none ↦ end | some t ↦ t ]

has_key-Alike :
    (k : String) (raw raw' : Fields) → get k raw' ≡ get k raw → has_key k raw' ≡ has_key k raw
has_key-Alike k raw raw' p = ap (λ v. elim v [ none ↦ false | some w ↦ true ]) p

both_off : (a b c d : Bool) → b ≡ false → d ≡ false → (a && b) ≡ (c && d)
both_off a b c d h k = ground arith

-- a pair whose second key is missing in both documents
unpaired :
    (j k : String) (raw raw' : Fields)
    → get k raw' ≡ get k raw
    → get k raw ≡ none
    → (has_key j raw' && has_key k raw') ≡ (has_key j raw && has_key k raw)
unpaired j k raw raw' p n =
    both_off (has_key j raw') _ (has_key j raw) _ (has_key-Alike k raw raw' p ∙ missing) missing
  where
    missing : has_key k raw ≡ false
    missing = ap (λ v. elim v [ none ↦ false | some w ↦ true ]) n

-- the tables of v2 read neither `delivery` nor `routing`, and those of v1 not `destinations`
v2-Alike :
    (net : Resolver) (raw raw' senders : Fields)
    → get "principals" raw' ≡ get "principals" raw
    → get "destinations" raw' ≡ get "destinations" raw
    → get "routes" raw' ≡ get "routes" raw
    → v2_tables net senders raw' ≡ v2_tables net senders raw
unfolding v2_tables
v2-Alike net raw raw' senders p d r = λ i. do
  principals ← validate_principals net (table_of (p i))
  destinations ← validate_destinations (d i) principals
  routes ← validate_routes (r i) senders destinations principals
  ok (record {
    principals = principals;
    destinations = destinations;
    routes = routes;
    delivery = delivery_alias principals;
  })

-- what the vocabulary decides, for documents that have the same tables
module _ (raw raw' : Fields) (senders : get "senders" raw' ≡ get "senders" raw)
    (routes : get "routes" raw' ≡ get "routes" raw)
    (principals : get "principals" raw' ≡ get "principals" raw)
    (legacy : get "sources" raw' ≡ get "sources" raw) where
  uses-Alike : uses_v2 raw' ≡ uses_v2 raw
  unfolding uses_v2
  uses-Alike = λ i.
      has_key-Alike "senders" raw raw' senders i
      || has_key-Alike "routes" raw raw' routes i
      || has_key-Alike "principals" raw raw' principals i

  sources-Alike : sources_of raw' ≡ sources_of raw
  unfolding sources_of
  sources-Alike = elim (Bool-cases (uses_v2 raw)) [
    | inl y ↦
        rw (uses-Alike, y) (λ i. do need (truthy (senders i)) "senders"; ok (table_of (senders i)))
    | inr n ↦
        rw (uses-Alike, n) (λ i. do need (truthy (legacy i)) "senders"; ok (table_of (legacy i)))
  ]

  routing-v2 : uses_v2 raw ≡ true → routing_of raw' ≡ routing_of raw
  unfolding routing_of
  routing-v2 y = rw (uses-Alike, y) refl

  tables-v2 :
      (net : Resolver)
      → get "destinations" raw' ≡ get "destinations" raw
      → uses_v2 raw ≡ true
      → (s r : Fields) → tables_for net s r raw' ≡ tables_for net s r raw
  tables-v2 net d y s r =
      unfold tables_for in rw (uses-Alike, y) (v2-Alike net raw raw' s principals d routes)

module _ (net : Resolver) (raw : Fields) where
  delivery-Alike :
      (v : Json)
      → uses_v2 raw ≡ true
      → get "principals" raw ≡ none
      → Alike net raw (put "delivery" v raw)
  delivery-Alike v y n =
      let at = λ (j : String). get-put "delivery" j v raw in
      record {
        objects = unfold are_objects in simp get-put refl;
        mixed =
            unfold is_mixed in
            λ i.
              has_key-Alike "sources" raw _ (at "sources") i
                && has_key-Alike "senders" raw _ (at "senders") i
              || has_key-Alike "routing" raw _ (at "routing") i
                && has_key-Alike "routes" raw _ (at "routes") i
              || unpaired "delivery" "principals" raw (put "delivery" v raw) (at "principals") n i;
        version = at "version";
        listen = at "listen";
        state = at "state";
        wake = at "wake";
        vault = at "vault";
        callback = at "default_callback_url";
        socket = at "socket_path";
        routing = routing-v2 raw _ (at "senders") (at "routes") (at "principals") (at "sources") y;
        sources = sources-Alike raw _ (at "senders") (at "routes") (at "principals") (at "sources");
        tables =
            tables-v2 raw _ (at "senders") (at "routes") (at "principals") (at "sources") net
              (at "destinations") y;
      }

  routing-Alike :
      (d : Fields)
      → uses_v2 raw ≡ true
      → get "routes" raw ≡ none
      → get "routing" raw ≡ none
      → Alike net raw (put "routing" (obj d) raw)
  routing-Alike d y n free =
      let at = λ (j : String). get-put "routing" j (obj d) raw in
      record {
        objects = unfold are_objects in simp get-put (rw free refl);
        mixed =
            unfold is_mixed in
            λ i.
              has_key-Alike "sources" raw _ (at "sources") i
                && has_key-Alike "senders" raw _ (at "senders") i
              || unpaired "routing" "routes" raw (put "routing" (obj d) raw) (at "routes") n i
              || has_key-Alike "delivery" raw _ (at "delivery") i
                && has_key-Alike "principals" raw _ (at "principals") i;
        version = at "version";
        listen = at "listen";
        state = at "state";
        wake = at "wake";
        vault = at "vault";
        callback = at "default_callback_url";
        socket = at "socket_path";
        routing = routing-v2 raw _ (at "senders") (at "routes") (at "principals") (at "sources") y;
        sources = sources-Alike raw _ (at "senders") (at "routes") (at "principals") (at "sources");
        tables =
            tables-v2 raw _ (at "senders") (at "routes") (at "principals") (at "sources") net
              (at "destinations") y;
      }

  v1-Alike :
      (raw' s r : Fields)
      → get "delivery" raw' ≡ get "delivery" raw
      → v1_tables net s r raw' ≡ v1_tables net s r raw
  unfolding v1_tables
  v1-Alike raw' s r d = rw d refl

  destinations-Alike :
      (d : Fields)
      → uses_v2 raw ≡ false
      → get "destinations" raw ≡ none
      → Alike net raw (put "destinations" (obj d) raw)
  destinations-Alike d n free =
      let raw' = put "destinations" (obj d) raw in
      let at = λ (j : String). get-put "destinations" j (obj d) raw in
      let uses : uses_v2 raw' ≡ uses_v2 raw =
        uses-Alike raw _ (at "senders") (at "routes") (at "principals") (at "sources") in
      let routing_at : get "routing" raw' ≡ get "routing" raw = at "routing" in
      record {
        objects = unfold are_objects in simp get-put (rw free refl);
        mixed =
            unfold is_mixed in
            λ i.
              has_key-Alike "sources" raw _ (at "sources") i
                && has_key-Alike "senders" raw _ (at "senders") i
              || has_key-Alike "routing" raw _ (at "routing") i
                && has_key-Alike "routes" raw _ (at "routes") i
              || has_key-Alike "delivery" raw _ (at "delivery") i
                && has_key-Alike "principals" raw _ (at "principals") i;
        version = at "version";
        listen = at "listen";
        state = at "state";
        wake = at "wake";
        vault = at "vault";
        callback = at "default_callback_url";
        socket = at "socket_path";
        routing = unfold routing_of in rw (uses, n, routing_at) refl;
        sources = sources-Alike raw _ (at "senders") (at "routes") (at "principals") (at "sources");
        tables = λ s r. unfold tables_for in rw (uses, n) (v1-Alike raw' s r (at "delivery"));
      }

-- A block, under its key, that stands beside the tables of the other vocabulary and is not the pair of one
-- of them: anything under `delivery` beside v2 tables without `principals`, an object under `routing`
-- beside v2 tables without `routes`, and one under `destinations` beside v1 tables.
pub data Misplaced (raw : Fields) : String → Json → Type 0 where
  stray_delivery :
      (v : Json) → uses_v2 raw ≡ true → get "principals" raw ≡ none → Misplaced raw "delivery" v
  stray_routing :
      (d : Fields)
      → uses_v2 raw ≡ true
      → get "routes" raw ≡ none
      → get "routing" raw ≡ none
      → Misplaced raw "routing" (obj d)
  stray_destinations :
      (d : Fields)
      → uses_v2 raw ≡ false
      → get "destinations" raw ≡ none
      → Misplaced raw "destinations" (obj d)

-- A block of one vocabulary that is added beside the tables of the other, and is not the pair of one of
-- them, changes nothing: the file is taken as it was without the block, with the same configuration, or
-- is refused as it was. Such are anything under `delivery` beside v2 tables without `principals`, an object
-- under `routing`, which was not there, beside v2 tables without `routes`, and an object under
-- `destinations`, which was not there, beside v1 tables.
pub stray_blocks_are_dropped :
    (net : Resolver) (raw : Fields) (k : String) (v : Json)
    → Misplaced raw k v
    → load_document net (put k v raw) ≡ load_document net raw
stray_blocks_are_dropped net raw _ _ (stray_delivery v y n) =
    load-Alike net raw _ (delivery-Alike net raw v y n)
stray_blocks_are_dropped net raw _ _ (stray_routing d y n free) =
    load-Alike net raw _ (routing-Alike net raw d y n free)
stray_blocks_are_dropped net raw _ _ (stray_destinations d n free) =
    load-Alike net raw _ (destinations-Alike net raw d n free)
