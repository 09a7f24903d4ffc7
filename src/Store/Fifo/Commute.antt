-- ===== src/Store/Fifo/Commute.antt =====
-- How filters, cuts and the abstraction of a row pass each other.
use agent_wake.Prelude.{
  ℕ, zero, suc, ◌≡◌, refl, ap, Bool, ◌&&◌, List, [], ◌∷◌, ◌++◌, map, take, keep, Bool-cases, inl,
  inr,
}

module _ {ℓ} {A : Type ℓ} where
  -- a filter by both tests is one filter behind the other
  pub keep-and : (p q : A → Bool) (xs : List A) → keep (λ x. p x && q x) xs ≡ keep q (keep p xs)
  unfolding keep
  keep-and p q [] = refl
  keep-and p q (x ∷ xs) = elim (Bool-cases (p x)) [
    | inl y ↦ rw y (elim (Bool-cases (q x)) [
      | inl z ↦ rw z (ap (λ l. x ∷ l) (keep-and p q xs))
      | inr m ↦ rw m (keep-and p q xs)
    ])
    | inr n ↦ rw n (keep-and p q xs)
  ]

  pub keep_comm : (p q : A → Bool) (xs : List A) → keep p (keep q xs) ≡ keep q (keep p xs)
  unfolding keep
  keep_comm p q [] = refl
  keep_comm p q (x ∷ xs) = elim (Bool-cases (p x)) [
    | inl y ↦ elim (Bool-cases (q x)) [
      | inl z ↦ rw (z, y, z) (ap (λ l. x ∷ l) (keep_comm p q xs))
      | inr m ↦ rw (m, y, m) (keep_comm p q xs)
    ]
    | inr n ↦ elim (Bool-cases (q x)) [
      | inl z ↦ rw (z, n) (keep_comm p q xs)
      | inr m ↦ rw (m, n) (keep_comm p q xs)
    ]
  ]

module _ {ℓ κ} {A : Type ℓ} {B : Type κ} where
  pub keep-map :
      (p : B → Bool) (f : A → B) (xs : List A) → keep p (map f xs) ≡ map f (keep (λ x. p (f x)) xs)
  unfolding keep
  keep-map p f [] = refl
  keep-map p f (x ∷ xs) = elim (Bool-cases (p (f x))) [
    | inl y ↦ rw y (ap (λ l. f x ∷ l) (keep-map p f xs))
    | inr n ↦ rw n (keep-map p f xs)
  ]

  pub take-map : (n : ℕ) (f : A → B) (xs : List A) → take n (map f xs) ≡ map f (take n xs)
  take-map zero f xs = refl
  take-map (suc n) f [] = refl
  take-map (suc n) f (x ∷ xs) = ap (λ l. f x ∷ l) (take-map n f xs)

  pub map-append : (f : A → B) (xs ys : List A) → map f (xs ++ ys) ≡ map f xs ++ map f ys
  map-append f [] ys = refl
  map-append f (x ∷ xs) ys = ap (λ l. f x ∷ l) (map-append f xs ys)

module _ {ℓ} {A : Type ℓ} where
  pub keep-ext : (p q : A → Bool) → ((x : A) → p x ≡ q x) → (xs : List A) → keep p xs ≡ keep q xs
  unfolding keep
  keep-ext p q h [] = refl
  keep-ext p q h (x ∷ xs) = elim (Bool-cases (q x)) [
    | inl y ↦ rw (h x, y) (ap (λ l. x ∷ l) (keep-ext p q h xs))
    | inr n ↦ rw (h x, n) (keep-ext p q h xs)
  ]
