-- ===== src/Ingest/Trigger.antt =====
-- `check_trigger_identity` of gating.py.
use agent_wake.Prelude.{
  String, ◌≡◌, ◌↔◌, ◌⊎◌, Bool, true, false, not, Option, none, some, ◌==◌, arith, if◌then◌else◌,
  any,
}
use agent_wake.Json.{Json, Fields, str, arr, get, truthy, elements, as_str}

abbrev is_text : String → Json → Bool
is_text header (str s) = s == header
is_text header _ = false

-- `header in allowed`, for a list; `config.load_config` refuses any other truthy value
unfoldable pub is_member : String → Option Json → Bool
is_member header (some (arr xs)) = any (is_text header) (elements xs)
is_member header _ = false

-- an absent header and an empty one are both falsy
abbrev pub or_empty : Option String → String
or_empty none = ""
or_empty (some s) = s

-- none is accepted, else the error code
unfoldable pub check_trigger_identity : Fields → Option String → Option String
check_trigger_identity source_cfg header =
    let allowed = get "allowed_trigger_identities" source_cfg in
    if not (truthy allowed) then none else elim (as_str allowed) [
      | some _ ↦ some "identity_not_allowed"
      | none ↦
          if or_empty header == ""
          then some "identity_missing"
          else if not (is_member (or_empty header) allowed)
          then some "identity_not_allowed"
          else none
    ]

-- A sender is accepted exactly when the source has no allowlist, or when the allowlist is a list that
-- holds the header's non-empty value as a whole; a text is never searched for a part.
pub check_trigger_identity_iff :
    (source_cfg : Fields) (header : Option String)
    → let allowed = get "allowed_trigger_identities" source_cfg in
      (check_trigger_identity source_cfg header ≡ none) ↔ (
        (truthy allowed ≡ false)
        ⊎ (((or_empty header == "") ≡ false) × (is_member (or_empty header) allowed ≡ true)))
unfolding check_trigger_identity is_member as_str
check_trigger_identity_iff source_cfg header = ground arith
