-- ===== src/Ingest/WakeEvent.antt =====
-- `_build_wake_event` of ingest.py. `payload` is what `json.loads` makes of the body;
-- `content` is the body decoded with replacement characters.
use agent_wake.Prelude.{
  String, ◌≡◌, refl, ◌↔◌, ◌⊎◌, inl, inr, Bool, true, false, not, Option, none, some, ◌==◌, arith,
  eq_iff, if◌then◌else◌, eqb, Bool-cases,
}
use agent_wake.Ingest.World.{Payload, parsed, unreadable}
use agent_wake.Json.{
  Json, Fields, null, bool, int, pos, float, str, arr, obj, end, field, get, set_default,
  get-set_default, py_str, text_at,
}

-- The event, the exceptions SourceMismatchError and UnsupportedVersionError, and one that nothing catches.
pub data Built : Type 0 where
  event : Fields → Built
  source_mismatch unsupported_version uncaught : Built

-- `isinstance(version, int) and not isinstance(version, bool) and version == 0`, 0 if missing
unfoldable pub is_v0 : Option Json → Bool
is_v0 none = true
is_v0 (some (int (pos n))) = eqb n 0
is_v0 _ = false

-- `claimed is not None and claimed != source`
unfoldable pub mismatches : Option Json → String → Bool
mismatches none source = false
mismatches (some null) source = false
mismatches (some (str s)) source = not (s == source)
mismatches _ source = true

unfoldable pub has_key : String → Fields → Bool
has_key k d = elim (get k d) [ none ↦ false | some _ ↦ true ]

-- the setdefaults of an envelope; `"source" not in payload` is one more
unfoldable pub complete : String → Fields → Fields
complete source payload = set_default "wake" (bool true) (
    set_default "meta" (obj end) (
      set_default "content" (str "")
        (set_default "kind" (str "webhook") (set_default "source" (str source) payload))))

abbrev pub or_ulid : Option String → String → String
or_ulid none ulid = ulid
or_ulid (some s) ulid = if s == "" then ulid else s

unfoldable pub wrapped : String → String → String → Fields
wrapped content source event_id = field "v" (int (pos 0)) (
    field "event_id" (str event_id) (
      field "source" (str source) (
        field "kind" (str "webhook")
          (field "content" (str content) (field "meta" (obj end) (field "wake" (bool true) end))))))

unfoldable pub build_wake_event : Payload → String → String → Option String → String → Built
build_wake_event unreadable content source event_id ulid = uncaught
build_wake_event (parsed (obj payload)) content source event_id ulid =
    if not (is_v0 (get "v" payload))
    then unsupported_version
    else if has_key "event_id" payload
    then (if mismatches (get "source" payload) source
        then source_mismatch
        else event (complete source payload))
    else event (wrapped content source (or_ulid event_id ulid))
build_wake_event _ content source event_id ulid =
    event (wrapped content source (or_ulid event_id ulid))

abbrev or_given : Json → Option Json → Option Json
or_given v none = some v
or_given v (some w) = some w

complete-source :
    (source : String) (payload : Fields)
    → get "source" (complete source payload) ≡ or_given (str source) (get "source" payload)
unfolding complete
complete-source source payload = simp get-set_default (ground arith)

source_cases :
    (o : Option Json) (source : String)
    → mismatches o source ≡ false
    → (or_given (str source) o ≡ some (str source)) ⊎ (or_given (str source) o ≡ some null)
unfolding mismatches
source_cases none source h = inl refl
source_cases (some null) source h = inr refl
source_cases (some (str s)) source h = inl (ground (arith, eq_iff s source))
source_cases (some (bool b)) source h = absurd (cc)
source_cases (some (int z)) source h = absurd (cc)
source_cases (some (float s)) source h = absurd (cc)
source_cases (some (arr xs)) source h = absurd (cc)
source_cases (some (obj d)) source h = absurd (cc)

wrapped-source :
    (content source id : String) → get "source" (wrapped content source id) ≡ some (str source)
unfolding wrapped get
wrapped-source content source id = refl

-- An event that is built carries the authenticated source, or the explicit null that its envelope
-- gave; no body can name another source.
pub built_source :
    (payload : Payload) (content source : String) (id : Option String) (ulid : String) (ev : Fields)
    → build_wake_event payload content source id ulid ≡ event ev
    → (get "source" ev ≡ some (str source)) ⊎ (get "source" ev ≡ some null)
unfolding build_wake_event
built_source payload content source id ulid ev h = built_cases payload h
  where
    from_wrapped :
        event (wrapped content source (or_ulid id ulid)) ≡ event ev
        → (get "source" ev ≡ some (str source)) ⊎ (get "source" ev ≡ some null)
    from_wrapped e =
        let same : ev ≡ wrapped content source (or_ulid id ulid) = cc in
        inl (rw same (wrapped-source content source (or_ulid id ulid)))

    from_envelope :
        (d : Fields)
        → mismatches (get "source" d) source ≡ false
        → event (complete source d) ≡ event ev
        → (get "source" ev ≡ some (str source)) ⊎ (get "source" ev ≡ some null)
    from_envelope d m e =
        let same : ev ≡ complete source d = cc in
        rw (same, complete-source) (source_cases (get "source" d) source m)

    built_cases :
        (p : Payload)
        → build_wake_event p content source id ulid ≡ event ev
        → (get "source" ev ≡ some (str source)) ⊎ (get "source" ev ≡ some null)
    built_cases unreadable e = absurd (cc)
    built_cases (parsed (obj d)) e = elim (Bool-cases (is_v0 (get "v" d))) [
      | inr bad ↦ absurd (ground arith)
      | inl good ↦ elim (Bool-cases (has_key "event_id" d)) [
        | inr bare ↦ from_wrapped (ground arith)
        | inl full ↦ elim (Bool-cases (mismatches (get "source" d) source)) [
          | inl bad ↦ absurd (ground arith)
          | inr fits ↦ from_envelope d fits (ground arith)
        ]
      ]
    ]
    built_cases _ e = from_wrapped e

-- The daemon reads the source of an event as a text. An envelope of version 0 with an event id and an
-- explicit null for its source is accepted, and its source then reads `None`, whoever was authenticated.
pub null_source_reads_none :
    (payload : Fields) (content source : String) (id : Option String) (ulid : String)
    → is_v0 (get "v" payload) ≡ true
    → has_key "event_id" payload ≡ true
    → get "source" payload ≡ some null
    → (ev : Fields) × (build_wake_event (parsed (obj payload)) content source id ulid ≡ event ev)
      × (text_at "source" ev ≡ "None")
unfolding build_wake_event text_at
null_source_reads_none payload content source id ulid v e n = (
  complete source payload,
  rw (n, v, e) (unfold mismatches in refl),
  rw (complete-source, n, text_at) (unfold py_str in refl),
)

-- A JSON object is rejected for its version exactly when it declares one other than the integer 0, and
-- for its source exactly when it is an envelope of version 0, with an event id, that claims another
-- source than the authenticated one.
pub build_wake_event_cases :
    (payload : Fields) (content source : String) (id : Option String) (ulid : String)
    → let b = build_wake_event (parsed (obj payload)) content source id ulid in
      ((b ≡ unsupported_version) ↔ (is_v0 (get "v" payload) ≡ false))
      × ((b ≡ source_mismatch) ↔ (
          (is_v0 (get "v" payload) ≡ true)
          × (has_key "event_id" payload ≡ true)
          × (mismatches (get "source" payload) source ≡ true)))
unfolding build_wake_event
build_wake_event_cases payload content source id ulid = ground arith
