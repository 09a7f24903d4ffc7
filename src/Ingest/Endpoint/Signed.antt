-- ===== src/Ingest/Endpoint/Signed.antt =====
-- What the endpoint grants: nothing without a verified signature, and no human delivery without
-- authority.
use agent_wake.Prelude.{
  String, ◌≡◌, ◌≢◌, refl, ap, ◌∙◌, ◌⊎◌, inl, inr, true, false, contains, map, Option, none, some,
  [], ◌∷◌, ◌++◌, arith, Bool-cases, Option-cases,
}
use agent_wake.Json.{Json, Items, Fields, arr, cons, get, py_str, elements}
use agent_wake.Addressing.Tables.{sender}
use agent_wake.Addressing.Resolve.{declared, out_of_band_principals}
use agent_wake.Ingest.Trigger.{check_trigger_identity}
use agent_wake.Ingest.RateLimit.{allow}
use agent_wake.Ingest.World.{World, Request, Response, Endpoint}
use agent_wake.Ingest.Endpoint.{
  rate_limited, not_accepted, internal_error, client_address, source_config, verified,
  target_principal, is_known_principal, is_authorized, hand_over, dispatch, authenticated,
  from_source, after_secrets, after_peer, post_root,
}

-- A response that names no reason but a limit, the signature or the secrets.
abbrev pub Opaque : Response → Type 0
Opaque a = (a ≡ rate_limited) ⊎ (a ≡ not_accepted) ⊎ (a ≡ internal_error)

-- the entry of a sender lists the principal
abbrev pub Declares : Fields → String → String → Type 0
Declares config source p =
    (entry : Fields) × (ps : Items) × (sender config source ≡ some entry)
    × (get "allowed_target_principals" entry ≡ some (arr ps))
    × (contains (map py_str (elements ps)) p ≡ true)

listed-Declares :
    (config : Fields) (source p : String) (entry : Fields) (v : Option Json)
    → sender config source ≡ some entry
    → get "allowed_target_principals" entry ≡ v
    → (elim (declared v) [ none ↦ false | some allowed ↦ contains allowed p ]) ≡ true
    → Declares config source p
listed-Declares config source p entry (some (arr (cons x xs))) is e h = (entry, cons x xs, is, e, h)
listed-Declares config source p entry _ is e h = absurd (cc)

authorized-Declares :
    (config : Fields) (source p : String)
    → is_authorized config source p ≡ true
    → Declares config source p
unfolding is_authorized out_of_band_principals
authorized-Declares config source p h = elim (Option-cases (sender config source)) [
  | inl missing ↦
      absurd (let k : false ≡ true = rw (missing, is_authorized, out_of_band_principals) at h in cc)
  | inr (entry, is) ↦
      listed-Declares config source p entry (get "allowed_target_principals" entry) is refl
        (rw (is, is_authorized, out_of_band_principals) at h)
]

module _ (w : World) (r : Request) where
  -- what a request leaves that is stopped before the event is read
  abbrev pub Stopped : Fields → Endpoint → Endpoint × Response → Type 0
  Stopped cfg e s = ((s.0 ≡ e) ⊎ (s.0 ≡ after_secrets w cfg e)) × Opaque s.1

  Stopped-from_source :
      (cfg : Fields) (e : Endpoint)
      → verified w r cfg ≢ some true
      → Stopped cfg e (from_source w r (some cfg) e)
  unfolding from_source
  Stopped-from_source cfg e h = elim (Option-cases (verified w r cfg)) [
    | inl broken ↦ rw (broken, from_source) (inr refl, inr (inr refl))
    | inr (ok, is) ↦ elim (Bool-cases ok) [
      | inl y ↦ absurd (h (is ∙ ap some y))
      | inr n ↦ rw (is, n, from_source) (inr refl, inr (inl refl))
    ]
  ]

  -- A request whose signature does not verify takes at most a token from its peer's bucket: beyond
  -- that nothing changes but what other tasks do while the secrets are resolved. Its answer is one of
  -- the same three, whatever the body says.
  pub unverified_changes_nothing :
      (e : Endpoint) (cfg : Fields)
      → source_config e.config r.source ≡ some cfg
      → verified w r cfg ≢ some true
      → Stopped cfg (after_peer w r e) (post_root w r e)
  unfolding post_root
  unverified_changes_nothing e cfg here bad =
      elim (Bool-cases (allow w.peer_now (client_address r) e.limiter).1) [
        | inr limited ↦ rw (limited, post_root) (inl refl, inl refl)
        | inl ok ↦ rw (ok, here, post_root) (Stopped-from_source cfg (after_peer w r e) bad)
      ]

  allowed-authenticated :
      (cfg : Fields) (e : Endpoint)
      → (authenticated w r cfg e).1.status ≡ 202
      → check_trigger_identity cfg r.identity ≡ none
  unfolding authenticated
  allowed-authenticated cfg e h = elim (Option-cases (check_trigger_identity cfg r.identity)) [
    | inl fine ↦ fine
    | inr (code, is) ↦ elim (Bool-cases (allow w.source_now r.source e.limiter).1) [
      | inl ok ↦ let k : 403 ≡ 202 = rw (is, ok, authenticated) at h in absurd (omega (arith, k))
      | inr limited ↦
          let k : 429 ≡ 202 = rw (limited, authenticated) at h in absurd (omega (arith, k))
    ]
  ]

  allowed-from_source :
      (o : Option Fields) (e : Endpoint)
      → (from_source w r o e).1.status ≡ 202
      → (cfg : Fields) × (o ≡ some cfg)
        × (verified w r cfg ≡ some true)
        × (check_trigger_identity cfg r.identity ≡ none)
  unfolding from_source
  allowed-from_source none e h = absurd (omega (arith, h))
  allowed-from_source (some cfg) e h = elim (Option-cases (verified w r cfg)) [
    | inl broken ↦ let k : 500 ≡ 202 = rw (broken, from_source) at h in absurd (omega (arith, k))
    | inr (ok, is) ↦ elim (Bool-cases ok) [
      | inr bad ↦ let k : 403 ≡ 202 = rw (is, bad, from_source) at h in absurd (omega (arith, k))
      | inl good ↦
          let k : (authenticated w r cfg (after_secrets w cfg e)).1.status ≡ 202 =
            rw (is, good, from_source) at h in
          (cfg, refl, is ∙ ap some good, allowed-authenticated cfg (after_secrets w cfg e) k)
    ]
  ]

  -- A request is answered by 202 only if its source is configured, its signature verifies under the
  -- source's secrets, and its identity passes the source's allowlist.
  pub accepted_is_authenticated :
      (e : Endpoint)
      → (post_root w r e).1.status ≡ 202
      → (cfg : Fields) × (source_config e.config r.source ≡ some cfg)
        × (verified w r cfg ≡ some true)
        × (check_trigger_identity cfg r.identity ≡ none)
  unfolding post_root from_source
  accepted_is_authenticated e h =
      elim (Bool-cases (allow w.peer_now (client_address r) e.limiter).1) [
        | inr limited ↦
            let k : 429 ≡ 202 = rw (limited, post_root) at h in absurd (omega (arith, k))
        | inl ok ↦
            allowed-from_source (source_config e.config r.source) (after_peer w r e)
              (rw (ok, post_root) at h)
      ]

  -- An event is given to the human delivery only if it names a known principal that the entry of the
  -- source lists in `allowed_target_principals`, whatever its routes reach; otherwise the dispatch starts
  -- none.
  pub human_delivery_authorized :
      (ev : Fields) (e : Endpoint)
      → ((dispatch w r ev e).0.delivery_tasks ≡ e.delivery_tasks)
        ⊎ ((p : String) × (target_principal w ev ≡ some p)
            × (is_known_principal e.config p ≡ true)
            × Declares e.config r.source p
            × ((dispatch w r ev e).0.delivery_tasks ≡ e.delivery_tasks ++ ev ∷ []))
  unfolding dispatch hand_over
  human_delivery_authorized ev e = elim (Option-cases (target_principal w ev)) [
    | inl no_target ↦ rw (no_target, dispatch) (inl refl)
    | inr (p, is) ↦ elim (Bool-cases (is_known_principal e.config p)) [
      | inr unknown ↦ rw (is, unknown, dispatch) (inl refl)
      | inl known ↦ elim (Bool-cases (is_authorized e.config r.source p)) [
        | inr denied ↦ rw (is, known, denied, dispatch) (inl refl)
        | inl granted ↦ inr (
          p,
          is,
          known,
          authorized-Declares e.config r.source p granted,
          rw (is, known, granted, dispatch) refl,
        )
      ]
    ]
  ]
