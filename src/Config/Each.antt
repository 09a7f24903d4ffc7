-- ===== src/Config/Each.antt =====
-- What a loop of config.py over a dictionary, or a list, that succeeds says of each of its results.
use mathlib.Core.Path.{subst}
use agent_wake.Prelude.{
  String, ◌≡◌, refl, ap, Bool, true, false, ◌&&◌, Bool-cases, inl, inr, some, ◌==◌,
}
use agent_wake.Json.{Json, Items, Fields, nil, cons, end, field, get, put}
use agent_wake.Config.Checked.{Checked, ok, >>=-inv, each_field, each_item, all_items}

-- a predicate at every entry, and at every item
abbrev pub AllFields {ℓ} : (String → Json → Type ℓ) → Fields → Type ℓ
AllFields P end = Unit
AllFields P (field k v d) = P k v × AllFields P d

abbrev pub AllItems {ℓ} : (Json → Type ℓ) → Items → Type ℓ
AllItems P nil = Unit
AllItems P (cons v vs) = P v × AllItems P vs

abbrev pub ok_or {ℓ} : {A : Type ℓ} → A → Checked A → A
ok_or a (ok b) = b
ok_or a r = a

pub ok_inj {ℓ} : {A : Type ℓ} {a b : A} → ok a ≡ ok b → a ≡ b
ok_inj {a = a} h = ap (ok_or a) h

pub each_field-All {ℓ} :
    (P : String → Json → Type ℓ) (f : String → Json → Checked Json)
    → ((k : String) (v v' : Json) → f k v ≡ ok v' → P k v')
    → (d d' : Fields) → each_field f d ≡ ok d'
    → AllFields P d'
unfolding each_field
each_field-All P f step end d' h = subst (AllFields P) (ok_inj h) tt
each_field-All P f step (field k v d) d' h =
    let (v1, e, h1) = >>=-inv (f k v) _ h in
    let (d1, e1, h2) = >>=-inv (each_field f d) _ h1 in
    subst (AllFields P) (ok_inj h2) (step k v v1 e, each_field-All P f step d d1 e1)

pub each_item-All {ℓ} :
    (P : Json → Type ℓ) (f : Json → Checked Json)
    → ((v v' : Json) → f v ≡ ok v' → P v')
    → (vs vs' : Items) → each_item f vs ≡ ok vs'
    → AllItems P vs'
unfolding each_item
each_item-All P f step nil vs' h = subst (AllItems P) (ok_inj h) tt
each_item-All P f step (cons v vs) vs' h =
    let (v1, e, h1) = >>=-inv (f v) _ h in
    let (vs1, e1, h2) = >>=-inv (each_item f vs) _ h1 in
    subst (AllItems P) (ok_inj h2) (step v v1 e, each_item-All P f step vs vs1 e1)

pub both : (a b : Bool) → (a && b) ≡ true → (a ≡ true) × (b ≡ true)
both true b h = (refl, h)
both false b h = absurd (cc)

pub all_items-All :
    (p : Json → Bool) (vs : Items) → all_items p vs ≡ true → AllItems (λ v. p v ≡ true) vs
unfolding all_items
all_items-All p nil h = tt
all_items-All p (cons v vs) h =
    let (a, b) = both (p v) (all_items p vs) h in (a, all_items-All p vs b)

pub AllFields-map {ℓ κ} :
    (P : String → Json → Type ℓ) (Q : String → Json → Type κ)
    → ((k : String) (v : Json) → P k v → Q k v)
    → (d : Fields) → AllFields P d
    → AllFields Q d
AllFields-map P Q step end h = tt
AllFields-map P Q step (field k v d) h = (step k v h.0, AllFields-map P Q step d h.1)

-- what is put under a key, and what is found under one
pub AllFields-put {ℓ} :
    (P : String → Json → Type ℓ) (k : String) (v : Json) (d : Fields)
    → ((j : String) → P j v)
    → AllFields P d
    → AllFields P (put k v d)
unfolding put
AllFields-put P k v end p h = (p k, tt)
AllFields-put P k v (field j w d) p h = elim (Bool-cases (j == k)) [
  | inl y ↦ rw y (p j, h.1)
  | inr n ↦ rw n (h.0, AllFields-put P k v d p h.1)
]

pub AllFields-get {ℓ} :
    (P : String → Json → Type ℓ) (k : String) (v : Json) (d : Fields)
    → AllFields P d
    → get k d ≡ some v
    → (j : String) × P j v
unfolding get
AllFields-get P k v end h e = absurd (cc)
AllFields-get P k v (field j w d) h e = elim (Bool-cases (j == k)) [
  | inl y ↦ let is : some w ≡ some v = rw y at e in (j, subst (P j) (cc) h.0)
  | inr n ↦ AllFields-get P k v d h.1 (rw n at e)
]
