-- ===== src/Config/Loaded.antt =====
-- What a configuration that is loaded promises to the rest of the daemon: its addressing model.
use mathlib.Core.Path.{subst}
use agent_wake.Prelude.{
  ◌≡◌, refl, sym, ap, ◌∙◌, inl, inr, Bool, true, false, ◌||◌, Option, none, some, All, Bool-cases,
}
use agent_wake.Json.{
  Json, Fields, null, bool, int, float, truthy, str, arr, obj, get, as_obj, as_arr,
}
use agent_wake.Netguard.{Resolver}
use agent_wake.Addressing.Tables.{Destination, destination_table, destination, route_table}
use agent_wake.Config.Checked.{ok}
use agent_wake.Config.Each.{AllFields}
use agent_wake.Config.Senders.{check_senders, senders_need_vault}
use agent_wake.Config.Channels.{table_needs_vault}
use agent_wake.Config.Load.{load_document, normalised, check_vault_block, without_vault}
use agent_wake.Config.References.{Closed-tables_for}
use agent_wake.Config.Blocks.{validate_vault_block}
use agent_wake.Config.Credentials.{senders-IsObject, senders-Credentialed, Credentialed}
use agent_wake.Config.Parts.{Parts-load_document}

-- Every destination that a route of a loaded configuration names is one of its destinations, under either
-- vocabulary.
pub routes_lead :
    (net : Resolver) (raw cfg : Fields)
    → load_document net raw ≡ ok cfg
    → All
        (λ r. All (λ d. (x : Destination) × (destination cfg d ≡ some x)) r.destinations)
        (route_table cfg)
unfolding destination destination_table route_table normalised get check_senders as_arr as_obj
routes_lead net raw cfg h =
    let p = Parts-load_document net raw cfg h in
    let objects = senders-IsObject _ p.sources p.senders p.senders_is in
    let closed = Closed-tables_for net p.senders p.routing raw p.tables objects p.tables_is in
    subst
      (λ c.
        All (λ r. All (λ d. (x : Destination) × (destination c d ≡ some x)) r.destinations)
          (route_table c))
      p.cfg_is closed

-- the vault block is there and passes its check
abbrev pub VaultReady : Fields → Type 0
VaultReady raw = (v : Json) × (get "vault" raw ≡ some v) × (validate_vault_block v ≡ ok tt)

vault_ready :
    (v : Option Json)
    → truthy v ≡ true
    → check_vault_block v ≡ ok tt
    → (w : Json) × (v ≡ some w) × (validate_vault_block w ≡ ok tt)
unfolding truthy check_vault_block
vault_ready none h k = absurd (cc)
vault_ready (some null) h k = absurd (cc)
vault_ready (some (bool b)) h k = (bool b, refl, k)
vault_ready (some (int n)) h k = (int n, refl, k)
vault_ready (some (float s)) h k = (float s, refl, k)
vault_ready (some (str s)) h k = (str s, refl, k)
vault_ready (some (arr xs)) h k = (arr xs, refl, k)
vault_ready (some (obj d)) h k = (obj d, refl, k)

needed :
    (needs : Bool) (raw : Fields)
    → without_vault needs raw ≡ false
    → needs ≡ true
    → truthy (get "vault" raw) ≡ true
needed true raw h e = elim (Bool-cases (truthy (get "vault" raw))) [
  | inl y ↦ y
  | inr n ↦ absurd (let k : true ≡ false = rw n at h in cc)
]
needed false raw h e = absurd (cc)

-- Every sender of a loaded configuration has at least one secret, and each of them is a URI with the
-- scheme env or vault. If a sender, or a channel of a principal, has one that starts with `vault://`,
-- the file has a vault block that passes its check.
pub loaded-Credentialed :
    (net : Resolver) (raw cfg : Fields)
    → load_document net raw ≡ ok cfg
    → (senders : Fields) × (delivery : Fields) × (get "senders" cfg ≡ some (obj senders))
      × (get "delivery" cfg ≡ some (obj delivery))
      × AllFields Credentialed senders
      × ((senders_need_vault senders || table_needs_vault delivery) ≡ true → VaultReady raw)
unfolding normalised get
loaded-Credentialed net raw cfg h =
    let p = Parts-load_document net raw cfg h in
    let ready =
      λ (t : truthy (get "vault" raw) ≡ true). vault_ready (get "vault" raw) t p.vault_is in
    (
      p.senders,
      p.tables.delivery,
      sym (ap (get "senders") p.cfg_is) ∙ refl,
      sym (ap (get "delivery") p.cfg_is) ∙ refl,
      senders-Credentialed _ p.sources p.senders p.senders_is,
      λ v. elim (Bool-cases (senders_need_vault p.senders)) [
        | inl y ↦ ready (needed _ raw p.senders_vault y)
        | inr n ↦ ready (needed _ raw p.channels_vault (rw n at v))
      ],
    )
