-- ===== src/Addressing/Narrow.antt =====
-- The narrowing of `resolve`.
use agent_wake.Prelude.{
  String, ◌≡◌, ◌≢◌, refl, sym, ◌∙◌, ap, Bool, true, Option, none, some, List, [], ◌∷◌, ◌==◌,
  List-cases, keep, inl, inr,
}
use agent_wake.Json.{Fields}
use agent_wake.Addressing.Tables.{Destination}
use agent_wake.Addressing.Resolve.{
  Resolution, found, destination_not_routed, principal_not_routed, owned_by, narrow,
  narrow_principal, resolve, routed_destinations,
}

-- what the two narrowings ask of a destination
abbrev pub has_name : Option String → Destination → Bool
has_name none d = true
has_name (some n) d = d.name == n

abbrev pub has_owner : Option String → Destination → Bool
has_owner none d = true
has_owner (some p) d = owned_by p d

-- `resolve`, told by its result: it narrows the routed destinations by both requests and never adds
-- one. It is refused exactly when a requested name, or a requested principal, leaves nothing.
pub data Outcome (name principal : Option String) (routed : List Destination)
    : Resolution → Type 0 where
  narrowed :
      (ds : List Destination)
      → ds ≡ keep (has_owner principal) (keep (has_name name) routed)
      → (name ≢ none → ds ≢ [])
      → (principal ≢ none → ds ≢ [])
      → Outcome name principal routed (found ds)
  no_destination :
      name ≢ none
      → keep (has_name name) routed ≡ []
      → Outcome name principal routed destination_not_routed
  no_principal :
      principal ≢ none
      → keep (has_owner principal) (keep (has_name name) routed) ≡ []
      → Outcome name principal routed principal_not_routed

keep-true {ℓ} : {A : Type ℓ} (xs : List A) → keep (λ x. true) xs ≡ xs
unfolding keep
keep-true [] = refl
keep-true (x ∷ xs) = ap (◌∷◌ x) (keep-true xs)

principal-Outcome :
    (name principal : Option String) (routed allowed : List Destination)
    → allowed ≡ keep (has_name name) routed
    → (name ≢ none → allowed ≢ [])
    → Outcome name principal routed (narrow_principal principal allowed)
unfolding narrow_principal
principal-Outcome name none routed allowed e some_named =
    narrowed allowed (e ∙ sym (keep-true (keep (has_name name) routed))) some_named
      (λ h. absurd (h refl))
principal-Outcome name (some p) routed allowed e some_named =
    let e' : keep (owned_by p) allowed ≡ keep (has_owner (some p)) (keep (has_name name) routed) =
      ap (keep (owned_by p)) e in
    elim (List-cases (keep (owned_by p) allowed)) [
      | inl nothing ↦ rw (nothing, narrow_principal) (no_principal (cc) (sym e' ∙ nothing))
      | inr (d, ds, some_left) ↦
          rw (some_left, narrow_principal)
            (narrowed (d ∷ ds) (sym some_left ∙ e') (λ _. cc) (λ _. cc))
    ]

narrow-Outcome :
    (name principal : Option String) (routed : List Destination)
    → Outcome name principal routed (narrow name principal routed)
unfolding narrow
narrow-Outcome none principal routed =
    principal-Outcome none principal routed routed (sym (keep-true routed)) (λ h. absurd (h refl))
narrow-Outcome (some n) principal routed = elim (List-cases (keep (λ d. d.name == n) routed)) [
  | inl nothing ↦ rw (nothing, narrow) (no_destination (cc) nothing)
  | inr (d, ds, some_left) ↦
      rw (some_left, narrow)
        (principal-Outcome (some n) principal routed (d ∷ ds) (sym some_left) (λ _. cc))
]

-- `resolve` gives exactly the routed destinations that have the requested name and the requested
-- principal, in their order. A request for a name, or for a principal, that leaves none of them is
-- refused with the code of that request and is never answered by an empty list.
pub resolve-Outcome :
    (cfg : Fields) (s : String) (name principal : Option String)
    → Outcome name principal (routed_destinations cfg s) (resolve cfg s name principal)
unfolding resolve
resolve-Outcome cfg s name principal = narrow-Outcome name principal (routed_destinations cfg s)
