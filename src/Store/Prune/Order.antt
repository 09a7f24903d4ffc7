-- ===== src/Store/Prune/Order.antt =====
-- Which dead letters the cap evicts.
use agent_wake.Prelude.{
  ℕ, ◌-◌, ◌≡◌, refl, Bool, true, false, not, none, some, List, [], ◌∷◌, arith, length, inl, inr,
  Bool-cases, Option-cases, All, IsOrder, gone-before-evict, ltb, leb, eqb, ◌&&◌, ◌||◌,
}
use agent_wake.Store.State.{WakeStore, DeadLetter}
use agent_wake.Store.Prune.{
  fresh_dead_letters, cap_dead_letters, sweep_dead_letters, evict_dead_letters, victims,
  evicts_before, redrive_rank, kind_rank,
}

-- the lexicographic order of three numbers
abbrev lex : ℕ → ℕ → ℕ → ℕ → ℕ → ℕ → Bool
lex a b c x y z = ltb a x || eqb a x && (ltb b y || eqb b y && leb c z)

lex_total : (a b c x y z : ℕ) → lex a b c x y z ≡ false → lex x y z a b c ≡ true
lex_total a b c x y z h = ground arith

lex_trans :
    (a b c x y z k l m : ℕ)
    → lex a b c x y z ≡ true
    → lex x y z k l m ≡ true
    → lex a b c k l m ≡ true
lex_trans a b c x y z k l m h h' = ground arith

evicts_before-IsOrder : IsOrder evicts_before
unfolding evicts_before
evicts_before-IsOrder = record {
  total = λ x y.
      lex_total (redrive_rank x.redrive_status) (kind_rank x.kind) x.created_at
        (redrive_rank y.redrive_status) (kind_rank y.kind) y.created_at;
  trans = λ x y z.
      lex_trans (redrive_rank x.redrive_status) (kind_rank x.kind) x.created_at
        (redrive_rank y.redrive_status) (kind_rank y.kind) y.created_at
        (redrive_rank z.redrive_status) (kind_rank z.kind) z.created_at;
}

-- Whatever the cap evicts stands, in the order of the ORDER BY, before or level with every dead
-- letter that stays.
pub victims_first :
    (n : ℕ) (rows : List DeadLetter)
    → All (λ v. All (λ s. evicts_before v s ≡ true) (evict_dead_letters n rows)) (victims n rows)
unfolding evict_dead_letters victims
victims_first n rows = gone-before-evict evicts_before (λ d. d.id) n rows evicts_before-IsOrder

All-map :
    (P Q : DeadLetter → Type 0)
    → ((d : DeadLetter) → P d → Q d)
    → (ds : List DeadLetter) → All P ds
    → All Q ds
All-map P Q step [] h = tt
All-map P Q step (d ∷ ds) h = (step d h.0, All-map P Q step ds h.1)

-- nobody has tried to redrive the letter
abbrev pub is_untried : DeadLetter → Bool
is_untried d = elim d.redrive_status [ none ↦ true | some status ↦ false ]

-- what stands before a letter of the other sort, in the order of eviction
untried_last :
    (v s : DeadLetter) → evicts_before v s ≡ true → (is_untried v && not (is_untried s)) ≡ false
unfolding evicts_before redrive_rank
untried_last v s h = elim (Option-cases v.redrive_status) [
  | inr (status, tried) ↦ rw tried refl
  | inl untried ↦ elim (Option-cases s.redrive_status) [
    | inl untried_too ↦ rw (untried, untried_too) refl
    | inr (status, tried) ↦ absurd (ground arith)
  ]
]

untried_victims :
    (kept gone : List DeadLetter)
    → All (λ v. All (λ s. evicts_before v s ≡ true) kept) gone
    → All (λ v. All (λ s. (is_untried v && not (is_untried s)) ≡ false) kept) gone
untried_victims kept gone = All-map _ _ (λ v. All-map _ _ (λ s h. untried_last v s h) kept) gone

-- When a prune evicts dead letters to keep their maximum, every one whose redrive was tried, also one
-- whose redrive failed, goes before any that nobody has tried to redrive: it never happens that one of
-- the latter is evicted, whatever its kind and age, and one that was tried stays in the swept table.
pub failed_redrive_first :
    (now : ℕ) (st : WakeStore)
    → let live = fresh_dead_letters now st in
      let overflow = length live - st.limits.dead_letter_max_rows in
      All
        (λ v. All (λ s. (is_untried v && not (is_untried s)) ≡ false) (sweep_dead_letters now st))
        (victims overflow live)
unfolding sweep_dead_letters cap_dead_letters
failed_redrive_first now st =
    let live = fresh_dead_letters now st in
    let overflow = length live - st.limits.dead_letter_max_rows in
    elim (Bool-cases (ltb 0 overflow)) [
      | inr room ↦ let nothing : overflow ≡ 0 = ground arith in rw nothing (unfold victims in tt)
      | inl full ↦ rw full (
          untried_victims (evict_dead_letters overflow live) (victims overflow live)
            (victims_first overflow live))
    ]
