-- ===== src/Ingest/Window/Remembers.antt =====
-- How long the window remembers an id.
use mathlib.Core.List.{append_assoc}
use agent_wake.Prelude.{
  ℕ, suc, ◌+◌, ◌≤◌, ◌<◌, String, ◌≡◌, refl, sym, ◌∙◌, ap, true, false, ◌||◌, List, [], ◌∷◌, ◌++◌,
  ◌==◌, arith, eq_iff, eq_refl, if◌then◌else◌, eqb, eqb_iff, length, length-drop, drop, keep, not,
  contains, length-append, Bool-cases, inl, inr, ◌&&◌, Pairs, Pairs-last, All,
}
use agent_wake.Ingest.Window.{Window, discard_oldest, append_bounded, add, check}

-- The set and the queue hold the same ids, none twice, and the queue is bounded.
pub record IsValid (w : Window) : Type 0 where
  pub same : (s : String) → contains w.seen s ≡ contains w.order s
  pub distinct : Pairs (λ a b. (a == b) ≡ false) w.order
  pub bounded : length w.order ≤ w.max_size

contains-last :
    (xs : List String) (e s : String) → contains (xs ++ e ∷ []) s ≡ (contains xs s || e == s)
unfolding contains
contains-last [] e s = ground arith
contains-last (x ∷ xs) e s = ground (arith, contains-last xs e s)

contains-keep_ne :
    (o s : String) (xs : List String)
    → contains (keep (λ t. not (t == o)) xs) s ≡ (contains xs s && not (o == s))
unfolding contains keep
contains-keep_ne o s [] = refl
contains-keep_ne o s (x ∷ xs) =
    ground (arith, contains-keep_ne o s xs, eq_iff x o, eq_iff x s, eq_iff o s)

contains-add : (e s : String) (xs : List String) → contains (add e xs) s ≡ (contains xs s || e == s)
unfolding add
contains-add e s xs = elim (Bool-cases (contains xs e)) [
  | inl old ↦ rw old (ground (arith, eq_iff e s))
  | inr new ↦ rw new (contains-last xs e s)
]

absent :
    (o s : String) (xs : List String)
    → All (λ b. (o == b) ≡ false) xs
    → (contains (o ∷ xs) s && not (o == s)) ≡ contains xs s
unfolding contains
absent o s [] h = ground arith
absent o s (x ∷ xs) h = ground (arith, absent o s xs h.1, eq_iff o s, eq_iff x s, eq_iff o x)

not-contains :
    (e : String) (xs : List String) → contains xs e ≡ false → All (λ x. (x == e) ≡ false) xs
unfolding contains
not-contains e [] h = tt
not-contains e (x ∷ xs) h = (ground arith, not-contains e xs (ground arith))

abbrev Fresh : String → String → Type 0
Fresh a b = (a == b) ≡ false

tail-Pairs : (xs : List String) → Pairs Fresh xs → Pairs Fresh (drop 1 xs)
tail-Pairs [] h = tt
tail-Pairs (x ∷ xs) h = h.1

append-same :
    (e s : String) (n : ℕ) (seen order : List String)
    → ((t : String) → contains seen t ≡ contains order t)
    → Pairs Fresh order
    → 0 < n
    → contains (add e (if eqb (length order) n then discard_oldest order seen else seen)) s
      ≡ contains (append_bounded n e order) s
unfolding append_bounded discard_oldest
append-same e s n seen [] same d pos = elim (Bool-cases (eqb 0 n)) [
  | inl full ↦ absurd (omega (arith, (eqb_iff 0 n).0 full))
  | inr room ↦
      rw room
        (contains-add e s seen ∙ ap (λ b. b || e == s) (same s) ∙ unfold contains in ground arith)
]
append-same e s n seen (o ∷ order) same d pos = elim (Bool-cases (eqb (suc (length order)) n)) [
  | inl full ↦ rw full (
      contains-add e s (keep (λ t. not (t == o)) seen)
      ∙ ap (λ b. b || e == s)
          (contains-keep_ne o s seen ∙ ap (λ b. b && not (o == s)) (same s) ∙ absent o s order d.0)
      ∙ sym (contains-last order e s))
  | inr room ↦
      rw room (
        contains-add e s seen
        ∙ ap (λ b. b || e == s) (same s)
        ∙ sym (contains-last (o ∷ order) e s))
]

append-distinct :
    (e : String) (n : ℕ) (order : List String)
    → contains order e ≡ false
    → Pairs Fresh order
    → Pairs Fresh (append_bounded n e order)
unfolding append_bounded
append-distinct e n order new d =
    let d' = Pairs-last Fresh e order (not-contains e order new) d in
    elim (Bool-cases (eqb (length order) n)) [
      | inl full ↦ rw full (tail-Pairs (order ++ e ∷ []) d')
      | inr room ↦ rw room d'
    ]

append-bounded :
    (e : String) (n : ℕ) (order : List String)
    → length order ≤ n
    → length (append_bounded n e order) ≤ n
unfolding append_bounded
append-bounded e n order h =
    ground (arith, length-append order (e ∷ []), length-drop 1 (order ++ e ∷ []))

check-IsValid : (e : String) (w : Window) → 0 < w.max_size → IsValid w → IsValid (check e w).0
unfolding check
check-IsValid e w pos v = elim (Bool-cases (contains w.seen e)) [
  | inl old ↦ rw (old, check) v
  | inr new ↦
      rw (new, check)
        (record {
          same = λ s. append-same e s w.max_size w.seen w.order v.same v.distinct pos;
          distinct = append-distinct e w.max_size w.order (rw (← v.same e) new) v.distinct;
          bounded = append-bounded e w.max_size w.order v.bounded;
        })
]

unfoldable pub run : List String → Window → Window
run [] w = w
run (e ∷ es) w = run es (check e w).0

max_size-check : (e : String) (w : Window) → (check e w).0.max_size ≡ w.max_size
unfolding check
max_size-check e w = ground arith

-- `e` stands in the queue with at most `k` ids behind it
abbrev Within : ℕ → String → List String → Type 0
Within k e order =
    (xs : List String) × (ys : List String) × (order ≡ xs ++ e ∷ ys) × (length ys ≤ k)

Within-append :
    (k n : ℕ) (e f : String) (order : List String)
    → suc k < n
    → Within k e order
    → Within (suc k) e (append_bounded n f order)
unfolding append_bounded
Within-append k n e f order room (xs, ys, split, short) = elim (Bool-cases (eqb (length order) n)) [
  | inr free ↦ rw free (
    xs,
    ys ++ f ∷ [],
    ap (λ l. l ++ f ∷ []) split ∙ append_assoc xs (e ∷ ys) (f ∷ []),
    rw length-append (omega arith),
  )
  | inl full ↦ rw full (shift ((eqb_iff (length order) n).0 full) xs split)
]
  where
    shift :
        length order ≡ n
        → (xs : List String) → order ≡ xs ++ e ∷ ys
        → Within (suc k) e (drop 1 (order ++ f ∷ []))
    shift all [] s' = absurd (omega (arith, ap length s'))
    shift all (x ∷ xs') s' =
        rw s'
          (xs', ys ++ f ∷ [], append_assoc xs' (e ∷ ys) (f ∷ []), rw length-append (omega arith))

Within-check :
    (k : ℕ) (e f : String) (w : Window)
    → suc k < w.max_size
    → Within k e w.order
    → Within (suc k) e (check f w).0.order
unfolding check
Within-check k e f w room h = elim (Bool-cases (contains w.seen f)) [
  | inl old ↦ rw (old, check) (h.0, h.1, h.2, omega arith)
  | inr new ↦ rw (new, check) (Within-append k w.max_size e f w.order room h)
]

contains-split : (e : String) (xs ys : List String) → contains (xs ++ e ∷ ys) e ≡ true
unfolding contains
contains-split e [] ys = rw eq_refl
contains-split e (x ∷ xs) ys = ground (arith, contains-split e xs ys)

run-remembers :
    (es : List String) (k : ℕ) (e : String) (w : Window)
    → 0 < w.max_size
    → IsValid w
    → k + length es < w.max_size
    → Within k e w.order
    → contains (run es w).seen e ≡ true
unfolding run
run-remembers [] k e w pos v room (xs, ys, split, short) =
    v.same e ∙ rw split (contains-split e xs ys)
run-remembers (f ∷ es) k e w pos v room h =
    run-remembers es (suc k) e (check f w).0 (rw max_size-check pos) (check-IsValid f w pos v)
      (rw max_size-check (omega arith)) (Within-check k e f w (omega arith) h)

Within-last :
    (e : String) (n : ℕ) (order : List String)
    → 0 < n
    → length order ≤ n
    → Within 0 e (append_bounded n e order)
unfolding append_bounded
Within-last e n [] pos h = elim (Bool-cases (eqb 0 n)) [
  | inl full ↦ absurd (omega (arith, (eqb_iff 0 n).0 full))
  | inr room ↦ rw room ([], [], refl, omega arith)
]
Within-last e n (o ∷ order) pos h = elim (Bool-cases (eqb (suc (length order)) n)) [
  | inl full ↦ rw full (order, [], refl, omega arith)
  | inr room ↦ rw room (o ∷ order, [], refl, omega arith)
]

-- An id that a valid window accepts as new is reported as a duplicate after fewer than `max_size`
-- further checks of any ids, and the window stays valid: the set and the queue agree.
pub window_remembers :
    (e : String) (es : List String) (w : Window)
    → 0 < w.max_size
    → IsValid w
    → contains w.seen e ≡ false
    → length es < w.max_size
    → ((check e w).1 ≡ false) × ((check e (run es (check e w).0)).1 ≡ true) × IsValid (check e w).0
window_remembers e es w pos v new room =
    let v' = check-IsValid e w pos v in
    let first : (check e w).1 ≡ false = unfold check in rw (new, check) refl in
    let kept : contains (run es (check e w).0).seen e ≡ true =
      run-remembers es 0 e (check e w).0 (rw max_size-check pos) v'
        (rw max_size-check (omega arith))
        (unfold check in rw (new, check) (Within-last e w.max_size w.order pos v.bounded)) in
    (first, unfold check in rw (kept, check) refl, v')
