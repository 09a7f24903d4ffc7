-- ===== src/Config/Webhooks.antt =====
-- Where the webhooks of a loaded configuration go.
use mathlib.Core.Path.{subst}
use agent_wake.Prelude.{
  String, ◌≡◌, refl, sym, ap, ◌∙◌, inl, inr, true, not, ◌||◌, Option, none, some, ◌==◌, Bool-cases,
  Option-cases,
}
use agent_wake.Json.{Json, Fields, null, str, obj, end, field, get, as_obj}
use agent_wake.Outbox.Url.{url_scheme}
use agent_wake.Url.{hostname}
use agent_wake.Netguard.{Resolver, check_host}
use agent_wake.Netguard.Mapped.{IsPublic, check_host-IsPublic}
use agent_wake.Addressing.Legacy.{table, derive_from_legacy}
use agent_wake.Delivery.{HumanDelivery, resolve_principal}
use agent_wake.Config.Checked.{ok, refused, need-then, >>=-inv}
use agent_wake.Config.Each.{AllFields, AllFields-get, ok_inj, each_field-All}
use agent_wake.Config.Senders.{parse_uri}
use agent_wake.Config.Channels.{
  required, assert_safe_url, validate_webhook, validate_channel, validate_channels_for,
  validate_delivery_entry, validate_channel_table, no_channels, only_channels,
  validate_channels_key, validate_principal, validate_principals,
}
use agent_wake.Config.Tables.{validate_destinations, validate_routes}
use agent_wake.Config.Load.{
  load_document, normalised, Tables, uses_v2, tables_for, v1_tables, v2_tables, legacy_delivery,
  delivery_alias, keep_channels,
}
use agent_wake.Config.Parts.{Parts-load_document}

-- the channel has a URL with a scheme of the web, and a host with addresses, none of them forbidden
abbrev pub IsGuarded : Resolver → Json → Type 0
IsGuarded net v =
    (d : Fields) × (url : String) × (v ≡ obj d)
    × (get "url" d ≡ some (str url))
    × ((url_scheme url == "http" || url_scheme url == "https") ≡ true)
    × IsPublic net (hostname url)

-- each webhook among the channels is one such
abbrev pub Guarded : Resolver → String → Json → Type 0
Guarded net kind v = kind ≡ "webhook" → IsGuarded net v

-- the entry of a principal, and its channels
abbrev EntryGuarded : Resolver → String → Json → Type 0
EntryGuarded net pid v =
    (e : Fields) × (ch : Fields) × (v ≡ obj e)
    × (get "channels" e ≡ some (obj ch))
    × AllFields (Guarded net) ch

-- the channels of a principal in the `delivery` block
abbrev ChannelsGuarded : Resolver → String → Json → Type 0
ChannelsGuarded net pid v = (ch : Fields) × (v ≡ obj ch) × AllFields (Guarded net) ch

module _ (net : Resolver) where
  host-safe :
      (url : String) (u : Unit {0}) → assert_safe_url net url ≡ ok u → IsPublic net (hostname url)
  unfolding assert_safe_url
  host-safe url u h = elim (Option-cases (check_host net (hostname url))) [
    | inl fine ↦ (check_host-IsPublic net (hostname url) fine).1
    | inr (why, bad) ↦ absurd (let e : refused "url" ≡ ok u = rw (bad, assert_safe_url) at h in cc)
  ]

  IsGuarded-webhook : (cfg : Fields) (v : Json) → validate_webhook net cfg ≡ ok v → IsGuarded net v
  unfolding validate_webhook get
  IsGuarded-webhook cfg v h =
      let (url, _, h1) = >>=-inv (required "url" cfg) _ h in
      let (scheme, h2) =
        need-then (url_scheme url == "http" || url_scheme url == "https") "url" _ h1 in
      let (u, safe, h3) = >>=-inv (assert_safe_url net url) _ h2 in
      let (secret_uri, _, h4) = >>=-inv (required "secret_uri" cfg) _ h3 in
      let (signed_by, _, h5) = >>=-inv (parse_uri secret_uri) _ h4 in
      subst (IsGuarded net) (ok_inj h5) (_, url, refl, refl, scheme, host-safe url u safe)

  Guarded-channel :
      (kind : String) (v v' : Json) → validate_channel net kind v ≡ ok v' → Guarded net kind v'
  unfolding validate_channel
  Guarded-channel kind (obj cfg) v' h = λ e. IsGuarded-webhook cfg v' (rw e at h)
  Guarded-channel kind v v' h = absurd (cc)

  Guarded-channels :
      (channels ch : Fields)
      → validate_channels_for net channels ≡ ok ch
      → AllFields (Guarded net) ch
  unfolding validate_channels_for
  Guarded-channels channels ch h =
      each_field-All (Guarded net) (validate_channel net) Guarded-channel channels ch h

  ChannelsGuarded-entry :
      (pid : String) (v v' : Json)
      → validate_delivery_entry net pid v ≡ ok v'
      → ChannelsGuarded net pid v'
  unfolding validate_delivery_entry
  ChannelsGuarded-entry pid (obj channels) v' h = elim (Bool-cases (pid == "")) [
    | inl y ↦ absurd (let e : refused "principal" ≡ ok v' = rw y at h in cc)
    | inr n ↦
        let (ch, e, h1) = >>=-inv (validate_channels_for net channels) _ (rw n at h) in
        subst (ChannelsGuarded net pid) (ok_inj h1) (ch, refl, Guarded-channels channels ch e)
  ]
  ChannelsGuarded-entry pid v v' h = absurd (cc)

  ChannelsGuarded-table :
      (v : Option Json) (delivery : Fields)
      → legacy_delivery net v ≡ ok delivery
      → AllFields (ChannelsGuarded net) delivery
  unfolding legacy_delivery validate_channel_table
  ChannelsGuarded-table none delivery h = subst (AllFields (ChannelsGuarded net)) (ok_inj h) tt
  ChannelsGuarded-table (some null) delivery h =
      subst (AllFields (ChannelsGuarded net)) (ok_inj h) tt
  ChannelsGuarded-table (some (obj d)) delivery h =
      each_field-All (ChannelsGuarded net) (validate_delivery_entry net) ChannelsGuarded-entry d
        delivery h
  ChannelsGuarded-table (some v) delivery h = absurd (cc)

  -- an entry without channels
  EntryGuarded-empty : (pid : String) → EntryGuarded net pid no_channels
  unfolding get
  EntryGuarded-empty pid = (_, end, refl, refl, tt)

  EntryGuarded-key :
      (pid : String) (v : Option Json) (v' : Json)
      → validate_channels_key net v ≡ ok v'
      → EntryGuarded net pid v'
  unfolding validate_channels_key get
  EntryGuarded-key pid none v' h = subst (EntryGuarded net pid) (ok_inj h) (EntryGuarded-empty pid)
  EntryGuarded-key pid (some null) v' h =
      subst (EntryGuarded net pid) (ok_inj h) (EntryGuarded-empty pid)
  EntryGuarded-key pid (some (obj channels)) v' h =
      let (ch, e, h1) = >>=-inv (validate_channels_for net channels) _ h in
      subst (EntryGuarded net pid) (ok_inj h1) (_, ch, refl, refl, Guarded-channels channels ch e)
  EntryGuarded-key pid (some v) v' h = absurd (cc)

  EntryGuarded-principal :
      (pid : String) (v v' : Json) → validate_principal net pid v ≡ ok v' → EntryGuarded net pid v'
  unfolding validate_principal
  EntryGuarded-principal pid null v' h = elim (Bool-cases (pid == "")) [
    | inl y ↦ absurd (let e : refused "principal" ≡ ok v' = rw y at h in cc)
    | inr n ↦ subst (EntryGuarded net pid) (ok_inj (rw n at h)) (EntryGuarded-empty pid)
  ]
  EntryGuarded-principal pid (obj entry) v' h =
      let (_, h1) = need-then (not (pid == "")) "principal" _ h in
      let (_, h2) = need-then (only_channels entry) "principal" _ h1 in
      EntryGuarded-key pid (get "channels" entry) v' h2
  EntryGuarded-principal pid v v' h = absurd (cc)

  -- an entry that is kept under its old name
  ChannelsGuarded-kept :
      (pid : String) (ch rest : Fields)
      → AllFields (Guarded net) ch
      → AllFields (ChannelsGuarded net) rest
      → AllFields (ChannelsGuarded net) (keep_channels pid (some ch) rest)
  ChannelsGuarded-kept pid end rest h hs = hs
  ChannelsGuarded-kept pid (field k v d) rest h hs = ((field k v d, refl, h), hs)

  ChannelsGuarded-alias :
      (ps : Fields)
      → AllFields (EntryGuarded net) ps
      → AllFields (ChannelsGuarded net) (delivery_alias ps)
  unfolding delivery_alias as_obj
  ChannelsGuarded-alias end h = tt
  ChannelsGuarded-alias (field pid v ps) ((e, ch, is, ch_is, guarded), rest) =
      rw (is, ch_is)
        (ChannelsGuarded-kept pid ch (delivery_alias ps) guarded (ChannelsGuarded-alias ps rest))

  AllGuarded : Tables → Type 0
  AllGuarded t = AllFields (ChannelsGuarded net) t.delivery

  AllGuarded-tables_for :
      (senders routing raw : Fields) (t : Tables)
      → tables_for net senders routing raw ≡ ok t
      → AllGuarded t
  unfolding tables_for v1_tables v2_tables derive_from_legacy validate_principals AllGuarded
  AllGuarded-tables_for senders routing raw t h = elim (Bool-cases (uses_v2 raw)) [
    | inl y ↦
        let (ps, e, h1) =
          >>=-inv (validate_principals net (table "principals" raw)) _ (rw y at h) in
        let (ds, _, h2) = >>=-inv (validate_destinations (get "destinations" raw) ps) _ h1 in
        let (rs, _, h3) = >>=-inv (validate_routes (get "routes" raw) senders ds ps) _ h2 in
        subst AllGuarded (ok_inj h3) (
          ChannelsGuarded-alias ps (
            each_field-All (EntryGuarded net) (validate_principal net) EntryGuarded-principal
              (table "principals" raw) ps e))
    | inr n ↦
        let (delivery, e, h1) = >>=-inv (legacy_delivery net (get "delivery" raw)) _ (rw n at h) in
        subst AllGuarded (ok_inj h1) (ChannelsGuarded-table (get "delivery" raw) delivery e)
  ]

Guarded-channels_in :
    (net : Resolver) (pid : String) (delivery channels : Fields)
    → AllFields (ChannelsGuarded net) delivery
    → as_obj (get pid delivery) ≡ some channels
    → AllFields (Guarded net) channels
unfolding as_obj
Guarded-channels_in net pid delivery channels all found = elim (Option-cases (get pid delivery)) [
  | inl gone ↦ absurd (let e : none ≡ some channels = rw (gone, as_obj) at found in cc)
  | inr (v, is) ↦
      let (j, (ch, v_is, guarded)) = AllFields-get (ChannelsGuarded net) pid v delivery all is in
      let same : some ch ≡ some channels = rw (is ∙ ap some v_is, as_obj) at found in
      subst (AllFields (Guarded net)) (cc) guarded
]

-- The channels that `HumanDelivery.resolve_principal` gives to a delivery under a loaded configuration:
-- each webhook among them has a URL with the scheme http or https, and its host resolved, when the
-- configuration was loaded, to at least one address and to no forbidden one.
pub webhooks_guarded :
    (net : Resolver) (raw cfg : Fields) (d : HumanDelivery) (pid : String) (channels : Fields)
    → load_document net raw ≡ ok cfg
    → d.config ≡ cfg
    → resolve_principal d pid ≡ some channels
    → AllFields
        (λ kind v.
          kind ≡ "webhook"
          → (d : Fields) × (url : String) × (v ≡ obj d)
            × (get "url" d ≡ some (str url))
            × ((url_scheme url == "http" || url_scheme url == "https") ≡ true)
            × IsPublic net (hostname url))
        channels
unfolding resolve_principal normalised get as_obj AllGuarded
webhooks_guarded net raw cfg d pid channels h running found =
    let p = Parts-load_document net raw cfg h in
    let guarded = AllGuarded-tables_for net p.senders p.routing raw p.tables p.tables_is in
    Guarded-channels_in net pid p.tables.delivery channels guarded
      (ap (λ c. as_obj (get pid (table "delivery" c))) (p.cfg_is ∙ sym running) ∙ found)
