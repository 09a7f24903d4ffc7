-- ===== src/Addressing/Reach.antt =====
-- Which destinations a sender's routes reach, and in which order.
use mathlib.Core.Path.{subst}
use agent_wake.Prelude.{
  String, ◌≡◌, refl, sym, ap, ◌∙◌, Option, none, some, Bool, true, false, not, ◌&&◌, ◌||◌, List, [],
  ◌∷◌, ◌++◌, ◌==◌, arith, any, keep, find, contains, Option-cases, if◌then◌else◌, All, Pairs,
  Pairs-last, Bool-cases, inl, inr, eq_iff,
}
use agent_wake.Json.{Fields}
use agent_wake.Addressing.Tables.{Destination, Route, named, destination_table, route_table}
use agent_wake.Addressing.Resolve.{
  owned_by, pick, expand, reaches, add_all, is_from, collect, routed_destinations,
}

reaches-append :
    (n : String) (xs ys : List Destination) → reaches n (xs ++ ys) ≡ (reaches n xs || reaches n ys)
unfolding reaches any
reaches-append n [] ys = refl
reaches-append n (x ∷ xs) ys = ground (arith, reaches-append n xs ys)

reaches-add_all :
    (n : String) (ds seen : List Destination)
    → reaches n (add_all seen ds) ≡ (reaches n seen || reaches n ds)
unfolding add_all
reaches-add_all n [] seen = unfold reaches any in ground arith
reaches-add_all n (d ∷ ds) seen = elim (Bool-cases (reaches d.name seen)) [
  | inl old ↦
      rw old (reaches-add_all n ds seen ∙ unfold reaches any in ground (arith, eq_iff d.name n))
  | inr new ↦ rw new (
      reaches-add_all n ds (seen ++ d ∷ [])
      ∙ rw reaches-append (unfold reaches any in ground arith))
]

-- the destination belongs to the principal of a route, which is there and not empty
abbrev pub belongs_to : Option String → Destination → Bool
belongs_to none d = false
belongs_to (some p) d = not (p == "") && elim d.principal [ none ↦ false | some q ↦ q == p ]

-- What a route means: one that names destinations leads to those of them that there are, and one that
-- names none to the destinations of its principal.
abbrev pub leads_to : List Destination → String → List String → Option String → Bool
leads_to dests n [] principal = any (λ d. d.name == n && belongs_to principal d) dests
leads_to dests n (m ∷ ms) principal = contains (m ∷ ms) n && any (λ d. d.name == n) dests

-- some route of the sender, or of every sender, leads to the name
abbrev pub some_route : String → List Destination → String → List Route → Bool
some_route s dests n =
    any (λ r. (r.sender == s || r.sender == "*") && leads_to dests n r.destinations r.principal)

named-name :
    (m : String) (dests : List Destination) (d : Destination)
    → named m dests ≡ some d
    → (d.name ≡ m) × (any (λ x. x.name == m) dests ≡ true)
unfolding named find any
named-name m [] d h = absurd (cc)
named-name m (x ∷ dests) d h = elim (Bool-cases (x.name == m)) [
  | inl y ↦
      let is : some x ≡ some d = rw y at h in
      let same : x ≡ d = cc is in (ap (λ z. z.name) (sym same) ∙ (eq_iff x.name m).0 y, rw y refl)
  | inr other ↦ let (e, found) = named-name m dests d (rw other at h) in (e, rw (other, found) refl)
]

unnamed :
    (m : String) (dests : List Destination)
    → named m dests ≡ none
    → any (λ x. x.name == m) dests ≡ false
unfolding named find any
unnamed m [] h = refl
unnamed m (x ∷ dests) h = elim (Bool-cases (x.name == m)) [
  | inl y ↦ absurd (let k : some x ≡ none = rw y at h in cc)
  | inr other ↦ rw (other, unnamed m dests (rw other at h)) refl
]

reaches-other :
    (n : String) (d : Destination) (ds : List Destination)
    → (d.name == n) ≡ false
    → reaches n (d ∷ ds) ≡ reaches n ds
unfolding reaches any
reaches-other n d ds h = rw h refl

reaches-pick :
    (n : String) (ms : List String) (dests : List Destination)
    → reaches n (pick ms dests) ≡ (contains ms n && any (λ d. d.name == n) dests)
unfolding pick contains
reaches-pick n [] dests = unfold reaches any in refl
reaches-pick n (m ∷ ms) dests =
    let ih = reaches-pick n ms dests in
    elim (Option-cases (named m dests)) [
      | inl gone ↦
          rw (gone, pick)
            (elim (Bool-cases (m == n)) [
              | inl y ↦
                  let none_here : any (λ x. x.name == n) dests ≡ false =
                    subst (λ z. any (λ x. x.name == z) dests ≡ false) ((eq_iff m n).0 y)
                      (unnamed m dests gone) in
                  rw (y, none_here) (ih ∙ ground arith)
              | inr other ↦ rw other ih
            ])
      | inr (d, found) ↦
          let (e, here) = named-name m dests d found in
          rw (found, pick)
            (elim (Bool-cases (m == n)) [
              | inl y ↦
                  let here_too : any (λ x. x.name == n) dests ≡ true =
                    subst (λ z. any (λ x. x.name == z) dests ≡ true) ((eq_iff m n).0 y) here in
                  rw (y, here_too) (unfold reaches any in rw (e, y) refl)
              | inr other ↦ rw other (reaches-other n d _ (ap (λ z. z == n) e ∙ other) ∙ ih)
            ])
    ]

reaches-keep :
    (n p : String) (dests : List Destination)
    → (p == "") ≡ false
    → reaches n (keep (owned_by p) dests) ≡ any (λ d. d.name == n && belongs_to (some p) d) dests
unfolding reaches any keep owned_by
reaches-keep n p [] h = refl
reaches-keep n p (d ∷ dests) h =
    let ih = reaches-keep n p dests h in
    elim (Option-cases d.principal) [
      | inl nobody ↦ rw (nobody, h) (ground arith)
      | inr (q, is) ↦ rw (is, h) (ground arith)
    ]

no_owner :
    (n : String) (o : Option String) (dests : List Destination)
    → ((d : Destination) → belongs_to o d ≡ false)
    → any (λ d. d.name == n && belongs_to o d) dests ≡ false
unfolding any
no_owner n o [] h = refl
no_owner n o (d ∷ dests) h = rw (h d, no_owner n o dests h) (ground arith)

-- the code's expansion of a route is what the route means
expand_means :
    (n : String) (dests : List Destination) (names : List String) (o : Option String)
    → reaches n (elim names [
      | m ∷ ms ↦ pick (m ∷ ms) dests
      | [] ↦ elim o [ none ↦ [] | some p ↦ if p == "" then [] else keep (owned_by p) dests ]
    ])
      ≡ leads_to dests n names o
expand_means n dests (m ∷ ms) o = reaches-pick n (m ∷ ms) dests
expand_means n dests [] none = unfold reaches any in sym (no_owner n none dests (λ d. refl))
expand_means n dests [] (some p) = elim (Bool-cases (p == "")) [
  | inl blank ↦
      let nowhere = no_owner n (some p) dests (λ d. rw blank refl) in
      rw nowhere (rw blank (unfold reaches any in refl))
  | inr given ↦
      ap (λ b. reaches n (if b then [] else keep (owned_by p) dests)) given
      ∙ reaches-keep n p dests given
]

reaches-expand :
    (n : String) (dests : List Destination) (r : Route)
    → reaches n (expand dests r) ≡ leads_to dests n r.destinations r.principal
unfolding expand
reaches-expand n dests r = expand_means n dests r.destinations r.principal

reaches-collect :
    (s n : String) (dests : List Destination) (rs : List Route) (seen : List Destination)
    → reaches n (collect s dests seen rs) ≡ (reaches n seen || some_route s dests n rs)
unfolding collect any is_from
reaches-collect s n dests [] seen = ground arith
reaches-collect s n dests (r ∷ rs) seen = elim (Bool-cases (r.sender == s || r.sender == "*")) [
  | inl ours ↦ rw ours (
      reaches-collect s n dests rs (add_all seen (expand dests r))
      ∙ rw (reaches-add_all, reaches-expand) (ground arith))
  | inr other ↦ rw other (reaches-collect s n dests rs seen)
]

-- A sender reaches a destination name exactly when it is the name of a destination, and one of the
-- sender's own routes, or one of the sender `*`, names it or, naming no destination, names the
-- destination's principal by a text that is not empty.
pub routed_iff_route :
    (cfg : Fields) (s n : String)
    → reaches n (routed_destinations cfg s)
      ≡ some_route s (destination_table cfg) n (route_table cfg)
unfolding routed_destinations
routed_iff_route cfg s n =
    reaches-collect s n (destination_table cfg) (route_table cfg) [] ∙ unfold reaches any in refl

-- a route expands to the name
abbrev pub some_expands : String → List Destination → String → List Route → Bool
some_expands s dests n = any (λ r. is_from s r && reaches n (expand dests r))

expands_means :
    (s n : String) (dests : List Destination) (rs : List Route)
    → some_route s dests n rs ≡ some_expands s dests n rs
unfolding any is_from
expands_means s n dests [] = refl
expands_means s n dests (r ∷ rs) =
    let ih = expands_means s n dests rs in rw reaches-expand (ground (arith, ih))

pub routed_expands :
    (cfg : Fields) (s n : String)
    → reaches n (routed_destinations cfg s)
      ≡ some_expands s (destination_table cfg) n (route_table cfg)
routed_expands cfg s n =
    routed_iff_route cfg s n ∙ expands_means s n (destination_table cfg) (route_table cfg)

abbrev pub OtherName : Destination → Destination → Type 0
OtherName a b = (a.name == b.name) ≡ false

others :
    (d : Destination) (seen : List Destination)
    → reaches d.name seen ≡ false
    → All (λ x. OtherName x d) seen
unfolding reaches any
others d [] h = tt
others d (x ∷ seen) h = (ground arith, others d seen (ground arith))

add_all-distinct :
    (ds seen : List Destination) → Pairs OtherName seen → Pairs OtherName (add_all seen ds)
unfolding add_all
add_all-distinct [] seen h = h
add_all-distinct (d ∷ ds) seen h = elim (Bool-cases (reaches d.name seen)) [
  | inl old ↦ rw old (add_all-distinct ds seen h)
  | inr new ↦
      rw new
        (add_all-distinct ds (seen ++ d ∷ []) (Pairs-last OtherName d seen (others d seen new) h))
]

collect-distinct :
    (s : String) (dests : List Destination) (rs : List Route) (seen : List Destination)
    → Pairs OtherName seen
    → Pairs OtherName (collect s dests seen rs)
unfolding collect
collect-distinct s dests [] seen h = h
collect-distinct s dests (r ∷ rs) seen h = elim (Bool-cases (is_from s r)) [
  | inl ours ↦ rw ours (
      collect-distinct s dests rs (add_all seen (expand dests r))
        (add_all-distinct (expand dests r) seen h))
  | inr other ↦ rw other (collect-distinct s dests rs seen h)
]

-- However many routes name it, a destination stands once in the list: one event is fanned out to
-- distinct destination names.
pub routed-distinct : (cfg : Fields) (s : String) → Pairs OtherName (routed_destinations cfg s)
unfolding routed_destinations
routed-distinct cfg s = collect-distinct s (destination_table cfg) (route_table cfg) [] tt
