-- ===== src/Tests/Config.antt =====
-- Two configuration files, one in each vocabulary.
use agent_wake.Prelude.{
  ◌+◌, ◌*◌, String, ◌≡◌, refl, true, false, ◌||◌, none, some, [], ◌∷◌, ◌==◌, All, arith,
}
use agent_wake.Json.{
  Json, Fields, int, pos, null, str, arr, obj, nil, cons, end, field, get, put, is_number, as_obj,
  as_arr, as_str,
}
use agent_wake.Outbox.Url.{url_scheme}
use agent_wake.Url.{hostname}
use agent_wake.Netguard.{Resolver, v4, v6, is_forbidden_ip, check_host, is_forbidden_address}
use agent_wake.Netguard.Mapped.{mapped_alike, IsPublic}
use agent_wake.Addressing.Tables.{Destination, route_table, destination}
use agent_wake.Delivery.{HumanDelivery, resolve_principal}
use agent_wake.Config.Checked.{Checked, ok}
use agent_wake.Config.Each.{AllFields}
use agent_wake.Config.Blocks.{validate_listen_block, validate_state_block, validate_wake_block}
use agent_wake.Config.Senders.{senders_need_vault}
use agent_wake.Config.Channels.{table_needs_vault}
use agent_wake.Config.Load.{load_document, uses_v2}
use agent_wake.Config.Credentials.{Credentialed}
use agent_wake.Config.Stray.{stray_blocks_are_dropped, stray_delivery}
use agent_wake.Config.Loaded.{routes_lead, loaded-Credentialed, VaultReady}
use agent_wake.Config.Webhooks.{webhooks_guarded}

-- a resolver that knows one host
abbrev net : Resolver
net = record {
  ip_address = λ a. some (v4 0x5db8d822);
  addresses = λ h. some ("93.184.216.34" ∷ []);
}

abbrev sender_entry : Fields
sender_entry = field "secret_env" (str "CI_KEY") end

abbrev v2_file : Fields
v2_file = field "version" (int (pos 2)) (
    field "senders" (obj (field "ci" (obj sender_entry) end)) (
      field "principals"
        (obj (
          field "ann"
            (obj (
              field "channels"
                (obj (
                  field "webhook"
                    (obj (
                      field "url" (str "https://example.org/hook")
                        (field "secret_uri" (str "env://HOOK_KEY") end)))
                    end))
                end))
            end))
        (field "destinations" (obj (field "desk" (obj (field "principal" (str "ann") end)) end)) (
          field "routes"
            (arr
              (cons (obj (field "sender" (str "ci") (field "destinations" (str "desk") end))) nil))
            end))))

abbrev loaded : Checked Fields → Fields
loaded (ok cfg) = cfg
loaded r = end

abbrev v2_config : Fields
v2_config = loaded (load_document net v2_file)

v2_loads : load_document net v2_file ≡ ok v2_config
unfolding load_document get is_number validate_listen_block validate_state_block validate_wake_block
    as_obj as_arr as_str url_scheme check_host hostname is_forbidden_address
v2_loads = refl

-- a v1 file with a null port and a stray table of destinations
abbrev v1_file : Fields
v1_file = field "sources" (obj (field "ci" (obj sender_entry) end)) (
    field "listen" (obj (field "port" null end))
      (field "destinations" (obj (field "desk" (obj end) end)) end))

abbrev v1_config : Fields
v1_config = loaded (load_document net v1_file)

abbrev v2_senders : Fields
v2_senders = field "senders" (obj (field "ci" (obj sender_entry) end)) end

routes_lead_example :
    All
      (λ r. All (λ d. (x : Destination) × (destination v2_config d ≡ some x)) r.destinations)
      (route_table v2_config)
routes_lead_example = routes_lead net v2_file v2_config v2_loads

loaded-Credentialed_example :
    (senders : Fields) × (delivery : Fields) × (get "senders" v2_config ≡ some (obj senders))
    × (get "delivery" v2_config ≡ some (obj delivery))
    × AllFields Credentialed senders
    × ((senders_need_vault senders || table_needs_vault delivery) ≡ true → VaultReady v2_file)
loaded-Credentialed_example = loaded-Credentialed net v2_file v2_config v2_loads

-- the v2 file with a stray delivery that is no object
stray_blocks_are_dropped_example :
    load_document net (put "delivery" (int (pos 7)) v2_senders) ≡ load_document net v2_senders
unfolding get uses_v2
stray_blocks_are_dropped_example =
    stray_blocks_are_dropped net v2_senders "delivery" (int (pos 7))
      (stray_delivery (int (pos 7)) refl refl)

abbrev hook : Fields
hook = field "url" (str "https://example.org/hook") (field "secret_uri" (str "env://HOOK_KEY") end)

-- the delivery of a daemon with the configuration
abbrev v2_delivery : HumanDelivery
v2_delivery = record {
  config = v2_config;
  adapters = "webhook" ∷ [];
  health = record {
    failures = [];
    unknown_principals = [];
    delivered_count = 0;
    lost_alerts = 0;
    last_lost_alert = none;
  };
  store = none;
}

ann_has : resolve_principal v2_delivery "ann" ≡ some (field "webhook" (obj hook) end)
unfolding resolve_principal load_document get is_number validate_listen_block validate_state_block
    validate_wake_block as_obj as_arr as_str url_scheme check_host hostname is_forbidden_address
ann_has = refl

webhooks_guarded_example :
    AllFields
      (λ kind v.
        kind ≡ "webhook"
        → (d : Fields) × (url : String) × (v ≡ obj d)
          × (get "url" d ≡ some (str url))
          × ((url_scheme url == "http" || url_scheme url == "https") ≡ true)
          × IsPublic net (hostname url))
      (field "webhook" (obj hook) end)
webhooks_guarded_example =
    webhooks_guarded net v2_file v2_config v2_delivery "ann" (field "webhook" (obj hook) end)
      v2_loads refl ann_has

-- 100.64.0.1 in its IPv6 spelling
mapped_alike_example :
    is_forbidden_ip (v6 (0xffff * 0x100000000 + 0x64400001)) ≡ is_forbidden_ip (v4 0x64400001)
mapped_alike_example = mapped_alike 0x64400001 (omega arith)

cgnat_test : is_forbidden_ip (v6 (0xffff * 0x100000000 + 0x64400001)) ≡ true
unfolding is_forbidden_ip
cgnat_test = refl

site_local_test : is_forbidden_ip (v6 (0xfec0 * 0x10000000000000000000000000000)) ≡ false
unfolding is_forbidden_ip
site_local_test = refl
