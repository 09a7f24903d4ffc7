-- ===== src/Tests/Ingest.antt =====
-- The ingest endpoint's checks at concrete requests.
use agent_wake.Prelude.{
  ℕ, ◌+◌, ◌*◌, ◌≤◌, ◌≡◌, refl, true, false, none, List, [], ◌∷◌, ◌++◌, arith, contains,
}
use agent_wake.Json.{Fields, null, str, arr, nil, cons, obj, end, field, get, text_at}
use agent_wake.Ingest.Signature.{verify_signature, verify_signature_any, scheme}
use agent_wake.Ingest.Signature.RoundTrip.{verify_self, verify-sign, to_hex}
use agent_wake.Ingest.RateLimit.{SourceRateLimiter, bucket}
use agent_wake.Ingest.RateLimit.Bound.{Request, last, serve, serve_bound}
use agent_wake.Ingest.Window.{Window, check}
use agent_wake.Ingest.Window.Remembers.{run, IsValid, window_remembers}
use agent_wake.Ingest.World.{parsed}
use agent_wake.Ingest.WakeEvent.{event, build_wake_event, is_v0, has_key, null_source_reads_none}

-- a stand-in for HMAC-SHA256: the secret and then the body
abbrev toy_hmac : List ℕ → List ℕ → List ℕ
toy_hmac secret body = secret ++ body

abbrev toy_header : List ℕ
toy_header = scheme ++ to_hex (toy_hmac (7 ∷ []) (200 ∷ []))

verify-sign_example :
    verify_signature_any toy_hmac (200 ∷ []) ((3 ∷ []) ∷ (7 ∷ []) ∷ []) toy_header ≡ true
verify-sign_example =
    verify-sign toy_hmac (200 ∷ []) (7 ∷ []) ((3 ∷ []) ∷ []) [] (omega arith, omega arith)

vouched : verify_signature toy_hmac (200 ∷ []) (7 ∷ []) toy_header ≡ true
vouched = verify_self toy_hmac (200 ∷ []) (7 ∷ []) (omega arith, omega arith)

abbrev guarded : Fields
guarded = field "allowed_trigger_identities" (arr (cons (str "human:ann") nil)) end

abbrev limiter : SourceRateLimiter
limiter = record { one = 10; rate = 1; burst = 2; buckets = [] }

abbrev requests : List Request
requests =
    record { now = 5; identifier = "ci" }
    ∷ record { now = 6; identifier = "cron" }
    ∷ record { now = 7; identifier = "ci" }
    ∷ []

serve_bound_example : (serve "ci" limiter requests).1 * 10 + 5 * 1 ≤ 2 * 10 + last 5 requests * 1
serve_bound_example =
    serve_bound "ci" requests 5 limiter (omega arith, (omega arith, (omega arith, tt)))
      (unfold bucket in refl)

abbrev window : Window
window = record { seen = []; order = []; max_size = 2 }

window_remembers_example :
    ((check "e1" window).1 ≡ false)
    × ((check "e1" (run ("e2" ∷ []) (check "e1" window).0)).1 ≡ true)
    × IsValid (check "e1" window).0
window_remembers_example =
    window_remembers "e1" ("e2" ∷ []) window (omega arith)
      (record { same = λ s. refl; distinct = tt; bounded = omega arith }) (unfold contains in refl)
      (omega arith)

abbrev envelope : Fields
envelope = field "event_id" (str "e1") (field "source" null end)

abbrev claims_other : Fields
claims_other = field "event_id" (str "e1") (field "source" (str "cron") end)

null_source_reads_none_example :
    (ev : Fields) × (build_wake_event (parsed (obj envelope)) "hi" "ci" none "u" ≡ event ev)
    × (text_at "source" ev ≡ "None")
unfolding get
null_source_reads_none_example =
    null_source_reads_none envelope "hi" "ci" none "u" (unfold is_v0 in refl)
      (unfold has_key in refl) (unfold get in refl)
