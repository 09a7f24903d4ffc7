-- ===== src/Prelude/Sorting.antt =====
-- `ORDER BY … LIMIT n` of SQL: a stable insertion sort by a Boolean order, and its prefix.
use Prim.Native.Nat.{ℕ, zero, suc}
use mathlib.Core.Path.{◌≡◌, refl, ◌∙◌, ap}
use mathlib.Core.Logic.{inl, inr}
use mathlib.Core.Bool.{Bool, true, false}
use mathlib.Core.List.{List, [], ◌∷◌}
use native.Mathlib.Omega.{arith}
use agent_wake.Prelude.Tests.{if◌then◌else◌, Bool-cases}
use agent_wake.Prelude.Lists.{length, take, drop, keep, All}

module _ {ℓ} {A : Type ℓ} (before : A → A → Bool) where
  -- in front of the first element that it stands before or ties with
  unfoldable pub insert_by : A → List A → List A
  insert_by x [] = x ∷ []
  insert_by x (y ∷ ys) = if before x y then x ∷ y ∷ ys else y ∷ insert_by x ys

  unfoldable pub sort_by : List A → List A
  unfolding insert_by
  sort_by [] = []
  sort_by (x ∷ xs) = insert_by x (sort_by xs)

  -- nothing stands before an earlier element
  abbrev pub IsSorted : List A → Type 0
  IsSorted [] = Unit
  IsSorted (x ∷ xs) = All (λ y. before x y ≡ true) xs × IsSorted xs

module _ {ℓ} {A : Type ℓ} (before : A → A → Bool) where
  pub length-insert_by : (x : A) (ys : List A) → length (insert_by before x ys) ≡ suc (length ys)
  unfolding insert_by
  length-insert_by x [] = refl
  length-insert_by x (y ∷ ys) = ground (arith, length-insert_by x ys)

  pub length-sort_by : (xs : List A) → length (sort_by before xs) ≡ length xs
  unfolding sort_by
  length-sort_by [] = refl
  length-sort_by (x ∷ xs) = length-insert_by x (sort_by before xs) ∙ ap suc (length-sort_by xs)

  -- a filter sees as many elements whatever their order
  length-keep-insert_by :
      (p : A → Bool) (x : A) (ys : List A)
      → length (keep p (insert_by before x ys)) ≡ length (keep p (x ∷ ys))
  unfolding insert_by keep
  length-keep-insert_by p x [] = refl
  length-keep-insert_by p x (y ∷ ys) = ground (arith, length-keep-insert_by p x ys)

  pub length-keep-sort_by :
      (p : A → Bool) (xs : List A) → length (keep p (sort_by before xs)) ≡ length (keep p xs)
  unfolding sort_by keep
  length-keep-sort_by p [] = refl
  length-keep-sort_by p (x ∷ xs) =
      length-keep-insert_by p x (sort_by before xs)
      ∙ unfold keep in ground (arith, length-keep-sort_by p xs)

module _ {ℓ κ} {A : Type ℓ} (before : A → A → Bool) (P : A → Type κ) where
  pub All-insert_by : (x : A) (ys : List A) → P x → All P ys → All P (insert_by before x ys)
  unfolding insert_by
  All-insert_by x [] px h = (px, tt)
  All-insert_by x (y ∷ ys) px h = elim (Bool-cases (before x y)) [
    | inl e ↦ rw e (px, h)
    | inr e ↦ rw e (h.0, All-insert_by x ys px h.1)
  ]

  pub All-sort_by : (xs : List A) → All P xs → All P (sort_by before xs)
  unfolding sort_by
  All-sort_by [] h = tt
  All-sort_by (x ∷ xs) h = All-insert_by x (sort_by before xs) h.0 (All-sort_by xs h.1)

  All-of_insert_by : (x : A) (ys : List A) → All P (insert_by before x ys) → P x × All P ys
  unfolding insert_by
  All-of_insert_by x [] h = (h.0, tt)
  All-of_insert_by x (y ∷ ys) h = elim (Bool-cases (before x y)) [
    | inl e ↦ let k : All P (x ∷ y ∷ ys) = rw e at h in (k.0, k.1)
    | inr e ↦
        let k : All P (y ∷ insert_by before x ys) = rw e at h in
        let r = All-of_insert_by x ys k.1 in (r.0, (k.0, r.1))
  ]

  pub All-of_sort_by : (xs : List A) → All P (sort_by before xs) → All P xs
  unfolding sort_by
  All-of_sort_by [] h = tt
  All-of_sort_by (x ∷ xs) h =
      let r = All-of_insert_by x (sort_by before xs) h in (r.0, All-of_sort_by xs r.1)

-- Sorting by an order that is total and transitive.
pub record IsOrder {ℓ} {A : Type ℓ} (before : A → A → Bool) : Type ℓ where
  pub total : (x y : A) → before x y ≡ false → before y x ≡ true
  pub trans : (x y z : A) → before x y ≡ true → before y z ≡ true → before x z ≡ true

module _ {ℓ} {A : Type ℓ} {before : A → A → Bool} (o : IsOrder before) where
  All-before :
      (x y : A) (ys : List A)
      → before x y ≡ true
      → All (λ z. before y z ≡ true) ys
      → All (λ z. before x z ≡ true) ys
  All-before x y [] h k = tt
  All-before x y (z ∷ ys) h k = (o.trans x y z h k.0, All-before x y ys h k.1)

  insert_by-IsSorted :
      (x : A) (ys : List A) → IsSorted before ys → IsSorted before (insert_by before x ys)
  unfolding insert_by
  insert_by-IsSorted x [] h = (tt, tt)
  insert_by-IsSorted x (y ∷ ys) h = elim (Bool-cases (before x y)) [
    | inl e ↦ rw e ((e, All-before x y ys e h.0), h)
    | inr e ↦ rw e (
      All-insert_by before (λ z. before y z ≡ true) x ys (o.total x y e) h.0,
      insert_by-IsSorted x ys h.1,
    )
  ]

  pub sort_by-IsSorted : (xs : List A) → IsSorted before (sort_by before xs)
  unfolding sort_by
  sort_by-IsSorted [] = tt
  sort_by-IsSorted (x ∷ xs) = insert_by-IsSorted x (sort_by before xs) (sort_by-IsSorted xs)

module _ {ℓ κ} {A : Type ℓ} (P : A → Type κ) where
  pub All-drop : (n : ℕ) (xs : List A) → All P xs → All P (drop n xs)
  All-drop zero xs h = h
  All-drop (suc n) [] h = tt
  All-drop (suc n) (x ∷ xs) h = All-drop n xs h.1

  pub All-take : (n : ℕ) (xs : List A) → All P xs → All P (take n xs)
  All-take zero xs h = tt
  All-take (suc n) [] h = tt
  All-take (suc n) (x ∷ xs) h = (h.0, All-take n xs h.1)

-- every element of the prefix stands before every element of the rest
pub take-before-drop {ℓ} :
    {A : Type ℓ} (before : A → A → Bool) (n : ℕ) (xs : List A)
    → IsSorted before xs
    → All (λ v. All (λ s. before v s ≡ true) (drop n xs)) (take n xs)
take-before-drop before zero xs h = tt
take-before-drop before (suc n) [] h = tt
take-before-drop before (suc n) (x ∷ xs) h =
    (All-drop (λ s. before x s ≡ true) n xs h.0, take-before-drop before n xs h.1)
