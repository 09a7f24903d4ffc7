-- ===== src/Prelude/Later.antt =====
-- A relation between each element of a list and every later one.
use mathlib.Core.Logic.{inl, inr}
use mathlib.Core.Bool.{Bool}
use mathlib.Core.List.{List, [], ◌∷◌, ◌++◌, map}
use agent_wake.Prelude.Tests.{Bool-cases}
use agent_wake.Prelude.Lists.{keep, All, All-keep, All-append}

module _ {ℓ κ} {A : Type ℓ} (R : A → A → Type κ) where
  abbrev pub Pairs : List A → Type κ
  Pairs [] = Unit
  Pairs (x ∷ xs) = All (R x) xs × Pairs xs

module _ {ℓ κ} {A : Type ℓ} (R : A → A → Type κ) where
  pub Pairs-keep : (p : A → Bool) (xs : List A) → Pairs R xs → Pairs R (keep p xs)
  unfolding keep
  Pairs-keep p [] h = tt
  Pairs-keep p (x ∷ xs) h = elim (Bool-cases (p x)) [
    | inl e ↦ rw e (All-keep (R x) p xs h.0, Pairs-keep p xs h.1)
    | inr e ↦ rw e (Pairs-keep p xs h.1)
  ]

  -- one more element, to which all others are related
  pub Pairs-last : (y : A) (xs : List A) → All (λ x. R x y) xs → Pairs R xs → Pairs R (xs ++ y ∷ [])
  Pairs-last y [] h k = (tt, tt)
  Pairs-last y (x ∷ xs) h k = (All-append (R x) xs (y ∷ []) k.0 (h.0, tt), Pairs-last y xs h.1 k.1)

module _ {ℓ κ} {A : Type ℓ} (P : A → Type κ) (f : A → A) (lift : (x : A) → P x → P (f x)) where
  pub All-map_self : (xs : List A) → All P xs → All P (map f xs)
  All-map_self [] h = tt
  All-map_self (x ∷ xs) h = (lift x h.0, All-map_self xs h.1)

module _ {ℓ κ} {A : Type ℓ} (R : A → A → Type κ) (f : A → A) (left : (x y : A) → R x y → R (f x) y)
    (right : (x y : A) → R x y → R x (f y)) where
  All-left : (x : A) (xs : List A) → All (R x) xs → All (R (f x)) xs
  All-left x [] h = tt
  All-left x (y ∷ ys) h = (left x y h.0, All-left x ys h.1)

  pub Pairs-map_self : (xs : List A) → Pairs R xs → Pairs R (map f xs)
  Pairs-map_self [] h = tt
  Pairs-map_self (x ∷ xs) h =
      (All-left x (map f xs) (All-map_self (R x) f (right x) xs h.0), Pairs-map_self xs h.1)
