-- ===== src/Router/Subscribe/Serving.antt =====
-- Who serves a destination.
use mathlib.Core.List.{reverse}
use agent_wake.Prelude.{
  String, ◌≡◌, refl, ◌∙◌, ap, Bool, true, ◌&&◌, ◌||◌, not, Option, none, some, List, [], ◌∷◌, ◌++◌,
  arith, eq_iff, contains, All, Bool-cases, Option-cases, inl, inr,
}
use agent_wake.Addressing.Tables.{Destination, destination_table}
use agent_wake.Router.State.{Router, Subscriber, subscriber}
use agent_wake.Router.Subscribe.{
  asked, served, accept_names, destinations_for_hello, serves, first_serving, subscriber_for,
}

-- no live subscriber of the session serves the destination
abbrev pub passes_over : Destination → Option Subscriber → Bool
passes_over dest none = true
passes_over dest (some s) = not (serves dest s)

-- The session ids before the one that is chosen are passed over.
abbrev pub Chosen : Destination → List Subscriber → List String → Option Subscriber → Type 0
Chosen dest subs sids none = All (λ x. passes_over dest (subscriber x subs) ≡ true) sids
Chosen dest subs sids (some s) =
    (newer : List String) × (sid : String) × (older : List String) × (sids ≡ newer ++ sid ∷ older)
    × (subscriber sid subs ≡ some s)
    × (serves dest s ≡ true)
    × All (λ x. passes_over dest (subscriber x subs) ≡ true) newer

Chosen-later :
    (dest : Destination) (subs : List Subscriber) (x : String) (sids : List String)
    (o : Option Subscriber)
    → passes_over dest (subscriber x subs) ≡ true
    → Chosen dest subs sids o
    → Chosen dest subs (x ∷ sids) o
Chosen-later dest subs x sids none h c = (h, c)
Chosen-later dest subs x sids (some s) h (newer, sid, older, split, is, does, idle) =
    (x ∷ newer, sid, older, ap (◌∷◌ x) split, is, does, (h, idle))

first_serving-Chosen :
    (dest : Destination) (subs : List Subscriber) (sids : List String)
    → Chosen dest subs sids (first_serving dest subs sids)
unfolding first_serving
first_serving-Chosen dest subs [] = tt
first_serving-Chosen dest subs (x ∷ sids) = elim (Option-cases (subscriber x subs)) [
  | inl gone ↦
      rw (gone, first_serving)
        (Chosen-later dest subs x sids (first_serving dest subs sids) (rw gone)
          (first_serving-Chosen dest subs sids))
  | inr (s, is) ↦ elim (Bool-cases (serves dest s)) [
    | inl does ↦ rw (is, first_serving) (rw does ([], x, sids, refl, is, does, tt))
    | inr idle ↦
        rw (is, first_serving)
          (rw idle (
            Chosen-later dest subs x sids (first_serving dest subs sids) (rw is (rw idle))
              (first_serving-Chosen dest subs sids)))
  ]
]

-- A destination is served by the most recent live session that claims its name and whose adapter it
-- accepts; it has no subscriber exactly when no session of the order does.
pub subscriber_for-Chosen :
    (dest : Destination) (rt : Router)
    → Chosen dest rt.subscribers (reverse rt.order) (subscriber_for dest rt)
unfolding subscriber_for
subscriber_for-Chosen dest rt = first_serving-Chosen dest rt.subscribers (reverse rt.order)

contains-append :
    (xs ys : List String) (s : String) → contains (xs ++ ys) s ≡ (contains xs s || contains ys s)
unfolding contains
contains-append [] ys s = refl
contains-append (x ∷ xs) ys s = ground (arith, contains-append xs ys s)

contains-accept_names :
    (table : List Destination) (adapter n : String) (names out : List String)
    → contains (accept_names table adapter out names) n
      ≡ (contains out n || (contains names n && served table adapter n))
unfolding accept_names
contains-accept_names table adapter n [] out = unfold contains in ground arith
contains-accept_names table adapter n (m ∷ names) out =
    elim (Bool-cases (served table adapter m && not (contains out m))) [
      | inl new ↦
          rw
            (
              new,
              contains-accept_names table adapter n names (out ++ m ∷ []),
              contains-append out (m ∷ []) n,
            )
            (unfold contains in ground (arith, eq_iff m n))
      | inr old ↦
          rw (old, contains-accept_names table adapter n names out)
            (unfold contains in ground (arith, eq_iff m n))
    ]

-- A connecting adapter is given exactly the destinations that it asked for, by name or through its
-- sources, that exist and accept its adapter.
pub hello_iff :
    (adapter : String) (sources : List String) (claimed : Option (List String)) (rt : Router)
    (n : String)
    → contains (destinations_for_hello adapter sources claimed rt) n
      ≡ (contains (asked sources claimed) n && served (destination_table rt.config) adapter n)
unfolding destinations_for_hello
hello_iff adapter sources claimed rt n =
    contains-accept_names (destination_table rt.config) adapter n (asked sources claimed) []
    ∙ unfold contains in refl
