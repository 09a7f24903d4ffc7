-- ===== src/Prelude/Evict.antt =====
-- `DELETE … WHERE key IN (SELECT key … ORDER BY … LIMIT n)`: how much is deleted, and what.
use Prim.Native.Nat.{ℕ, ◌-◌, ◌≤◌}
use Prim.Native.String.{String}
use mathlib.Core.Path.{◌≡◌, refl, sym, ap, ◌∙◌}
use mathlib.Core.Logic.{inl, inr}
use mathlib.Core.Bool.{Bool, true, false, not}
use mathlib.Core.List.{List, [], ◌∷◌, ◌++◌, map}
use native.Mathlib.Omega.{arith}
use text.Mathlib.TextPositions.{eq_refl}
use agent_wake.Prelude.Tests.{Bool-cases}
use agent_wake.Prelude.Lists.{
  length, take, drop, keep, All, contains, take-append-drop, length-drop, length-keep-le,
  keep-append, All-keep,
}
use agent_wake.Prelude.Sorting.{
  sort_by, IsOrder, length-sort_by, length-keep-sort_by, All-of_sort_by, sort_by-IsSorted,
  take-before-drop,
}

pub contains-cons :
    (j k : String) (ks : List String) → contains ks k ≡ true → contains (j ∷ ks) k ≡ true
unfolding contains
contains-cons j k ks h = ground arith

module _ {ℓ κ} {A : Type ℓ} (P Q : A → Type κ) where
  pub All-mono : ((x : A) → P x → Q x) → (xs : List A) → All P xs → All Q xs
  All-mono f [] h = tt
  All-mono f (x ∷ xs) h = (f x h.0, All-mono f xs h.1)

module _ {ℓ} {A : Type ℓ} where
  pub keep-none : (p : A → Bool) (xs : List A) → All (λ x. p x ≡ false) xs → keep p xs ≡ []
  unfolding keep
  keep-none p [] h = refl
  keep-none p (x ∷ xs) h = rw (h.0, keep-none p xs h.1)

  pub All-contains-map :
      (key : A → String) (xs : List A) → All (λ x. contains (map key xs) (key x) ≡ true) xs
  All-contains-map key [] = tt
  All-contains-map key (x ∷ xs) = (
    unfold contains in rw eq_refl,
    All-mono (λ y. contains (map key xs) (key y) ≡ true)
        (λ y. contains (key x ∷ map key xs) (key y) ≡ true)
        (λ y. contains-cons (key x) (key y) (map key xs)) xs (All-contains-map key xs),
  )

module _ {ℓ κ} {A : Type ℓ} (P : A → Type κ) (p : A → Bool) where
  All-of_keep : (xs : List A) → All P (keep p xs) → All (λ x. p x ≡ true → P x) xs
  unfolding keep
  All-of_keep [] h = tt
  All-of_keep (x ∷ xs) h = elim (Bool-cases (p x)) [
    | inl e ↦ let k : All P (x ∷ keep p xs) = rw e at h in (λ _. k.0, All-of_keep xs k.1)
    | inr e ↦ let k : All P (keep p xs) = rw e at h in (λ e'. absurd (cc), All-of_keep xs k)
  ]

  All-keep_of : (xs : List A) → All (λ x. p x ≡ true → P x) xs → All P (keep p xs)
  unfolding keep
  All-keep_of [] h = tt
  All-keep_of (x ∷ xs) h = elim (Bool-cases (p x)) [
    | inl e ↦ rw e (h.0 e, All-keep_of xs h.1)
    | inr e ↦ rw e (All-keep_of xs h.1)
  ]

  pub All-keep-of_sort_by :
      (before : A → A → Bool) (xs : List A) → All P (keep p (sort_by before xs)) → All P (keep p xs)
  All-keep-of_sort_by before xs h =
      All-keep_of xs
        (All-of_sort_by before (λ x. p x ≡ true → P x) xs (All-of_keep (sort_by before xs) h))

module _ {ℓ} {A : Type ℓ} (before : A → A → Bool) (key : A → String) (n : ℕ) (xs : List A) where
  abbrev pub gone : List A
  gone = take n (sort_by before xs)

  abbrev pub stays : A → Bool
  stays x = not (contains (map key gone) (key x))

  abbrev pub evict : List A
  evict = keep stays xs

  keep-gone : keep stays gone ≡ []
  keep-gone = keep-none stays gone (
      All-mono (λ x. contains (map key gone) (key x) ≡ true) (λ x. stays x ≡ false)
        (λ x h. ap not h) gone (All-contains-map key gone))

  keep-sorted : keep stays (sort_by before xs) ≡ keep stays (drop n (sort_by before xs))
  keep-sorted =
      ap (keep stays) (sym (take-append-drop n (sort_by before xs)))
      ∙ keep-append stays gone (drop n (sort_by before xs))
      ∙ ap (λ l. l ++ keep stays (drop n (sort_by before xs))) keep-gone

  pub length-evict-le : length evict ≤ length xs - n
  length-evict-le = omega (
    arith,
    length-keep-sort_by before stays xs,
    ap length keep-sorted,
    length-keep-le stays (drop n (sort_by before xs)),
    length-drop n (sort_by before xs),
    length-sort_by before xs,
  )

  pub gone-before-evict : IsOrder before → All (λ v. All (λ s. before v s ≡ true) evict) gone
  gone-before-evict o =
      All-mono (λ v. All (λ s. before v s ≡ true) (drop n (sort_by before xs)))
        (λ v. All (λ s. before v s ≡ true) evict)
        (λ v h.
          All-keep-of_sort_by (λ s. before v s ≡ true) stays before xs
            (rw keep-sorted
              (All-keep (λ s. before v s ≡ true) stays (drop n (sort_by before xs)) h)))
        gone (take-before-drop before n (sort_by before xs) (sort_by-IsSorted o xs))
