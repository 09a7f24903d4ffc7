-- ===== src/Config/Parts.antt =====
-- What `load_config` has found out when it returns.
use agent_wake.Prelude.{◌≡◌, refl, Bool, true, false, not}
use agent_wake.Json.{Fields, int, pos, get}
use agent_wake.Netguard.{Resolver}
use agent_wake.Addressing.Legacy.{or_null}
use agent_wake.Config.Checked.{ok, need-then, >>=-inv, or_default}
use agent_wake.Config.Each.{ok_inj}
use agent_wake.Config.Blocks.{validate_listen_block, validate_state_block, validate_wake_block}
use agent_wake.Config.Senders.{check_senders, senders_need_vault}
use agent_wake.Config.Channels.{table_needs_vault}
use agent_wake.Config.Load.{
  Tables, load_document, are_objects, nested_fields, is_version, is_mixed, routing_of, sources_of,
  check_vault_block, without_vault, tables_for, normalised,
}

-- the results of the parts, in their order
pub record Parts (net : Resolver) (raw cfg : Fields) : Type 0 where
  pub listen : Fields
  pub routing : Fields
  pub sources : Fields
  pub state : Fields
  pub wake : Fields
  pub senders : Fields
  pub tables : Tables
  pub unmixed : is_mixed raw ≡ false
  pub listen_is : validate_listen_block (get "listen" raw) ≡ ok listen
  pub routing_is : routing_of raw ≡ ok routing
  pub sources_is : sources_of raw ≡ ok sources
  pub state_is : validate_state_block (get "state" raw) ≡ ok state
  pub wake_is : validate_wake_block (get "wake" raw) ≡ ok wake
  pub senders_is : check_senders (or_null (get "default_callback_url" raw)) sources ≡ ok senders
  pub senders_vault : without_vault (senders_need_vault senders) raw ≡ false
  pub vault_is : check_vault_block (get "vault" raw) ≡ ok tt
  pub tables_is : tables_for net senders routing raw ≡ ok tables
  pub channels_vault : without_vault (table_needs_vault tables.delivery) raw ≡ false
  pub cfg_is : normalised raw listen routing senders state wake tables ≡ cfg

not-true : (b : Bool) → not b ≡ true → b ≡ false
not-true true h = absurd (cc)
not-true false h = refl

pub Parts-load_document :
    (net : Resolver) (raw cfg : Fields) → load_document net raw ≡ ok cfg → Parts net raw cfg
unfolding load_document
Parts-load_document net raw cfg h =
    let (_, h1) = need-then (are_objects nested_fields raw) "objects" _ h in
    let (_, h2) =
      need-then (is_version (or_default (get "version" raw) (int (pos 0)))) "version" _ h1 in
    let (unmixed, h3) = need-then (not (is_mixed raw)) "vocabulary" _ h2 in
    let (listen, a, h4) = >>=-inv (validate_listen_block (get "listen" raw)) _ h3 in
    let (routing, b, h5) = >>=-inv (routing_of raw) _ h4 in
    let (sources, c, h6) = >>=-inv (sources_of raw) _ h5 in
    let (state, d, h7) = >>=-inv (validate_state_block (get "state" raw)) _ h6 in
    let (wake, e, h8) = >>=-inv (validate_wake_block (get "wake" raw)) _ h7 in
    let (senders, f, h9) =
      >>=-inv (check_senders (or_null (get "default_callback_url" raw)) sources) _ h8 in
    let (g, h10) = need-then (not (without_vault (senders_need_vault senders) raw)) "vault" _ h9 in
    let (u, i, h11) = >>=-inv (check_vault_block (get "vault" raw)) _ h10 in
    let (t, j, h12) = >>=-inv (tables_for net senders routing raw) _ h11 in
    let (k, h13) =
      need-then (not (without_vault (table_needs_vault t.delivery) raw)) "vault" _ h12 in
    record {
      listen = listen;
      routing = routing;
      sources = sources;
      state = state;
      wake = wake;
      senders = senders;
      tables = t;
      unmixed = not-true (is_mixed raw) unmixed;
      listen_is = a;
      routing_is = b;
      sources_is = c;
      state_is = d;
      wake_is = e;
      senders_is = f;
      senders_vault = not-true _ g;
      vault_is = i;
      tables_is = j;
      channels_vault = not-true _ k;
      cfg_is = ok_inj h13;
    }
