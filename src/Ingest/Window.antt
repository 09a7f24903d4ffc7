-- ===== src/Ingest/Window.antt =====
-- `Dedupe` of ingest.py without a store: the window over the last ids, oldest first.
pub mod Remembers
use mathlib.Core.List.{append_assoc}
use agent_wake.Prelude.{
  ℕ, suc, ◌+◌, ◌≤◌, ◌<◌, String, ◌≡◌, refl, sym, ◌∙◌, ap, Bool, true, false, ◌||◌, List, [], ◌∷◌,
  ◌++◌, ◌==◌, arith, eq_iff, eq_refl, if◌then◌else◌, eqb, eqb_iff, length, length-drop, drop, keep,
  not, contains, length-append, Bool-cases, inl, inr, ◌&&◌, Pairs, Pairs-last, All,
}

pub record Window : Type 0 where
  pub seen : List String
  pub order : List String
  pub max_size : ℕ

-- `self._seen.discard(self._order[0])`, which is called on a full window
unfoldable pub discard_oldest : List String → List String → List String
discard_oldest [] seen = seen
discard_oldest (oldest ∷ order) seen = keep (λ s. not (s == oldest)) seen

-- `append` on a deque of `maxlen`
unfoldable pub append_bounded : ℕ → String → List String → List String
append_bounded max_size e order =
    if eqb (length order) max_size then drop 1 (order ++ e ∷ []) else order ++ e ∷ []

-- a set: what is there already is not added again
unfoldable pub add : String → List String → List String
add e seen = if contains seen e then seen else seen ++ e ∷ []

unfoldable pub check : String → Window → Window × Bool
check e w = if contains w.seen e then (w, true) else (
  record w {
    seen =
        add e (if eqb (length w.order) w.max_size then discard_oldest w.order w.seen else w.seen);
    order = append_bounded w.max_size e w.order;
  },
  false,
)
