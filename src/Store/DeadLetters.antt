-- ===== src/Store/DeadLetters.antt =====
-- The dead-letter table of store.py: insert, list, get, mark, count and purge.
use agent_wake.Prelude.{
  ℕ, ◌+◌, String, Bool, true, ◌&&◌, ◌||◌, not, Option, none, some, List, [], ◌∷◌, ◌++◌, map, ◌==◌,
  if◌then◌else◌, leb, ltb, length, take, keep, find, contains, sort_by,
}
use agent_wake.Json.{Fields}
use agent_wake.Store.State.{WakeStore, DeadLetter, column_is}

-- DEAD_LETTER_KINDS
abbrev pub dead_letter_kinds : List String
dead_letter_kinds = "reply" ∷ "next_session" ∷ "human_delivery" ∷ []

-- the INSERT of `dead_letter`; the id is a new ULID
unfoldable pub insert_dead_letter :
    String → ℕ → String → String → String → Fields → Option String → ℕ → WakeStore → WakeStore
insert_dead_letter dl_id now kind source ref_id payload error attempts st = record st {
  dead_letters =
      st.dead_letters
      ++ (record {
        id = dl_id;
        kind = kind;
        source = source;
        ref_id = ref_id;
        payload = payload;
        error = error;
        attempts = attempts;
        created_at = now;
        redriven_at = none;
        redrive_status = none;
      }
          ∷ []);
}

-- `none` is the ValueError of an unknown kind
unfoldable pub dead_letter :
    String
    → ℕ
    → String
    → String
    → String
    → Fields
    → Option String
    → ℕ
    → WakeStore
    → Option (WakeStore × String)
unfolding insert_dead_letter
dead_letter dl_id now kind source ref_id payload error attempts st =
    if contains dead_letter_kinds kind
    then some (insert_dead_letter dl_id now kind source ref_id payload error attempts st, dl_id)
    else none

-- `redrive_status IS NULL OR redrive_status != 'ok'`
unfoldable pub unredriven : DeadLetter → Bool
unfolding column_is
unredriven d = not (column_is d.redrive_status "ok")

abbrev is_kind : Option String → DeadLetter → Bool
is_kind none d = true
is_kind (some k) d = k == "" || d.kind == k

-- newest first
abbrev newer : DeadLetter → DeadLetter → Bool
newer a b = leb b.created_at a.created_at

unfoldable pub list_dead_letters : Option String → ℕ → Bool → WakeStore → List DeadLetter
unfolding unredriven
list_dead_letters kind limit include_redriven st = take limit (
    sort_by newer
      (keep (λ d. is_kind kind d && (include_redriven || unredriven d)) st.dead_letters))

unfoldable pub get_dead_letter : String → WakeStore → Option DeadLetter
get_dead_letter dl_id st = find (λ d. d.id == dl_id) st.dead_letters

abbrev coalesce : Option String → Option String → Option String
coalesce none e = e
coalesce (some s) e = some s

unfoldable pub marked_letter : ℕ → String → String → Option String → DeadLetter → DeadLetter
marked_letter now dl_id status error d =
    if d.id == dl_id
    then record d {
      redriven_at = some now;
      redrive_status = some status;
      error = coalesce error d.error;
    }
    else d

unfoldable pub mark_redriven : ℕ → String → String → Option String → WakeStore → WakeStore
unfolding marked_letter
mark_redriven now dl_id status error st = record st {
  dead_letters = map (marked_letter now dl_id status error) st.dead_letters;
}

unfoldable pub dead_letter_count : Bool → WakeStore → ℕ
unfolding unredriven
dead_letter_count include_redriven st =
    length (keep (λ d. include_redriven || unredriven d) st.dead_letters)

-- `created_at < now - older_than`, which no row meets if the right side is below 0
abbrev is_older : ℕ → Option ℕ → DeadLetter → Bool
is_older now none d = true
is_older now (some age) d = ltb (d.created_at + age) now

unfoldable pub purgeable : ℕ → Option ℕ → Bool → DeadLetter → Bool
unfolding unredriven
purgeable now older_than redriven_only d =
    is_older now older_than d && (not redriven_only || not (unredriven d))

unfoldable pub purge_dead_letters : ℕ → Option ℕ → Bool → WakeStore → WakeStore × ℕ
unfolding purgeable
purge_dead_letters now older_than redriven_only st = (
  record st {
    dead_letters = keep (λ d. not (purgeable now older_than redriven_only d)) st.dead_letters;
  },
  length (keep (purgeable now older_than redriven_only) st.dead_letters),
)
