-- ===== src/Tests/Endpoint.antt =====
-- The endpoint at a request of the sender `ci`.
use agent_wake.Prelude.{
  ℕ, String, ◌≡◌, refl, ◌⊎◌, true, none, some, List, [], ◌∷◌, ◌++◌, contains, any,
}
use agent_wake.Json.{
  Fields, str, arr, obj, nil, cons, end, field, as_obj, get, truthy, text_at, py_str,
}
use agent_wake.Ingest.Signature.{
  scheme, verify_signature, header_digest, behind, strip, strip_right, strip_left, is_space,
  from_hex, is_ascii_space, byte_of, hex_value, compare_digest,
}
use agent_wake.Ingest.Signature.RoundTrip.{to_hex}
use agent_wake.Ingest.Trigger.{check_trigger_identity}
use agent_wake.Ingest.RateLimit.{allow, bucket, current, refilled, set_bucket}
use agent_wake.Ingest.Window.{check}
use agent_wake.Addressing.Resolve.{trigger_identity_for}
use agent_wake.Ingest.WakeEvent.{build_wake_event, wrapped}
use agent_wake.Router.Send.{failed}
use agent_wake.Ingest.World.{World, Request, Endpoint, inline, malformed}
use agent_wake.Ingest.Endpoint.{
  source_config, verified, target_principal, is_known_principal, dispatch, after_peer, post_root,
  client_address,
}
use agent_wake.Ingest.Endpoint.Signed.{
  Stopped, Declares, unverified_changes_nothing, accepted_is_authenticated,
  human_delivery_authorized,
}
use agent_wake.Tests.Fixtures.{router_of, ulid}

abbrev source_entry : Fields
source_entry = field "allowed_target_principals" (arr (cons (str "ann") nil)) end

abbrev served_config : Fields
served_config =
    field "sources" (obj (field "ci" (obj source_entry) end))
      (field "delivery" (obj (field "ann" (obj end) end)) end)

abbrev app : Endpoint
app = record {
  config = served_config;
  limiter = record { one = 10; rate = 1; burst = 2; buckets = [] };
  window = record { seen = "e1" ∷ []; order = "e1" ∷ []; max_size = 4 };
  router = router_of served_config none;
  delivery_health = record {
    failures = [];
    unknown_principals = [];
    delivered_count = 0;
    lost_alerts = 0;
    last_lost_alert = none;
  };
  delivery_tasks = [];
}

-- the digest is the secret and then the body
abbrev world : World
world = record {
  hmac = λ secret body. secret ++ body;
  peer_now = 5;
  source_now = 5;
  secrets = λ cfg. inline (7 ∷ []);
  meanwhile = λ e. e;
  ulid = "u1";
  check_now = 5;
  sweep = 5;
  at = 5;
  letter_ids = ulid;
  has_delivery = true;
  deliver_now = 5;
  sends = λ n. failed (λ rt. rt);
  ack_ids = λ n. "a9";
}

abbrev request : List ℕ → Request
request signature = record {
  raw_body = 104 ∷ 105 ∷ [];
  payload = malformed;
  content = "hi";
  remote = some "10.0.0.1";
  source = "ci";
  signature = signature;
  event_id = some "e1";
  identity = none;
}

abbrev signed : Request
signed = request (scheme ++ to_hex (7 ∷ 104 ∷ 105 ∷ []))

unverified_changes_nothing_example :
    Stopped world
      (request [])
      source_entry
      (after_peer world (request []) app)
      (post_root world (request []) app)
unfolding source_config verified verify_signature as_obj get
unverified_changes_nothing_example =
    unverified_changes_nothing world (request []) app source_entry refl (λ e. absurd (cc))

accepted_is_authenticated_example :
    (cfg : Fields) × (source_config served_config "ci" ≡ some cfg)
    × (verified world signed cfg ≡ some true)
    × (check_trigger_identity cfg none ≡ none)
unfolding post_root allow source_config as_obj get verify_signature header_digest behind strip
    strip_right strip_left is_space to_hex from_hex is_ascii_space byte_of hex_value compare_digest
    bucket current refilled set_bucket check contains any client_address check_trigger_identity
    truthy build_wake_event trigger_identity_for text_at wrapped py_str
accepted_is_authenticated_example = accepted_is_authenticated world signed app refl

abbrev targeted : Fields
targeted = field "event_id" (str "e5") (field "meta" (obj (field "target" (str "ann") end)) end)

human_delivery_authorized_example :
    ((dispatch world signed targeted app).0.delivery_tasks ≡ [])
    ⊎ ((p : String) × (target_principal world targeted ≡ some p)
        × (is_known_principal served_config p ≡ true)
        × Declares served_config "ci" p
        × ((dispatch world signed targeted app).0.delivery_tasks ≡ targeted ∷ []))
human_delivery_authorized_example = human_delivery_authorized world signed targeted app
