-- ===== src/Json.antt =====
-- Python's view of a JSON document (the value of `json.loads`), and what the daemon does with one.
-- A dictionary is its entries in order of insertion; `json.loads` and every writer here keep the
-- keys distinct. A float is its `repr`, which determines it.
mod Text
pub mod Number
unfoldable pub use Text.{decimal}
use Prim.Native.String.{◌++◌}
use agent_wake.Prelude.{
  ℕ, suc, String, ◌≡◌, refl, Bool, true, false, not, ◌&&◌, ◌||◌, Option, none, some, List, [], ◌∷◌,
  arith, ◌==◌, eq_iff, if◌then◌else◌, eqb,
}

pub data ℤ : Type 0 where
  pos : ℕ → ℤ
  negsuc : ℕ → ℤ

mutual
  pub data Json : Type 0 where
    null : Json
    bool : Bool → Json
    int : ℤ → Json
    float : String → Json
    str : String → Json
    arr : Items → Json
    obj : Fields → Json

  pub data Items : Type 0 where
    nil : Items
    cons : Json → Items → Items

  pub data Fields : Type 0 where
    end : Fields
    field : String → Json → Fields → Fields

-- d.get(k)
unfoldable pub get : String → Fields → Option Json
get k end = none
get k (field j v d) = if j == k then some v else get k d

-- d[k] = v
unfoldable pub put : String → Json → Fields → Fields
put k v end = field k v end
put k v (field j w d) = if j == k then field j v d else field j w (put k v d)

-- d.setdefault(k, v)
unfoldable pub set_default : String → Json → Fields → Fields
set_default k v d = elim (get k d) [ none ↦ put k v d | some _ ↦ d ]

-- the test `if v:`
unfoldable pub truthy : Option Json → Bool
truthy none = false
truthy (some null) = false
truthy (some (bool b)) = b
truthy (some (int (pos n))) = not (eqb n 0)
truthy (some (int (negsuc n))) = true
truthy (some (float s)) = not (s == "0.0" || s == "-0.0")
truthy (some (str s)) = not (s == "")
truthy (some (arr nil)) = false
truthy (some (arr (cons x xs))) = true
truthy (some (obj end)) = false
truthy (some (obj (field k v d))) = true

-- `isinstance(v, str)`, with the text
unfoldable pub as_str : Option Json → Option String
as_str (some (str s)) = some s
as_str _ = none

-- `isinstance(v, dict)`, with the dictionary
unfoldable pub as_obj : Option Json → Option Fields
as_obj (some (obj d)) = some d
as_obj _ = none

-- `isinstance(v, list)`, with the items
unfoldable pub as_arr : Option Json → Option Items
as_arr (some (arr xs)) = some xs
as_arr _ = none

-- `v == n` of Python for a small number n: a Boolean and a float compare as numbers
unfoldable pub is_number : ℕ → Option Json → Bool
is_number n (some (int (pos m))) = eqb m n
is_number n (some (bool true)) = eqb n 1
is_number n (some (bool false)) = eqb n 0
is_number n (some (float s)) = s == (decimal n ++ ".0") || eqb n 0 && s == "-0.0"
is_number n _ = false

unfoldable pub entries : Fields → List (String × Json)
entries end = []
entries (field k v d) = (k, v) ∷ entries d

unfoldable pub elements : Items → List Json
elements nil = []
elements (cons x xs) = x ∷ elements xs

-- `str(v)`. Inside a list or a dictionary a text is put between single quotes, which is what Python
-- writes for a text of printing characters without quotes and backslashes.
unfoldable mutual
  unfolding decimal

  pub py_str : Json → String
  py_str null = "None"
  py_str (bool true) = "True"
  py_str (bool false) = "False"
  py_str (int (pos n)) = decimal n
  py_str (int (negsuc n)) = "-" ++ decimal (suc n)
  py_str (float s) = s
  py_str (str s) = s
  py_str (arr xs) = "[" ++ repr_items xs
  py_str (obj d) = "{" ++ repr_fields d

  pub repr : Json → String
  repr null = "None"
  repr (bool true) = "True"
  repr (bool false) = "False"
  repr (int (pos n)) = decimal n
  repr (int (negsuc n)) = "-" ++ decimal (suc n)
  repr (float s) = s
  repr (str s) = "'" ++ s ++ "'"
  repr (arr xs) = "[" ++ repr_items xs
  repr (obj d) = "{" ++ repr_fields d

  pub repr_items : Items → String
  repr_items nil = "]"
  repr_items (cons x nil) = repr x ++ "]"
  repr_items (cons x (cons y ys)) = repr x ++ ", " ++ repr_items (cons y ys)

  pub repr_fields : Fields → String
  repr_fields end = "}"
  repr_fields (field k v end) = "'" ++ k ++ "': " ++ repr v ++ "}"
  repr_fields (field k v (field j w d)) =
      "'" ++ k ++ "': " ++ repr v ++ ", " ++ repr_fields (field j w d)

-- `str(d.get(k, ""))`
unfoldable pub text_at : String → Fields → String
text_at k d = elim (get k d) [ none ↦ "" | some v ↦ py_str v ]

pub get-put :
    (k j : String) (v : Json) (d : Fields)
    → get j (put k v d) ≡ (if k == j then some v else get j d)
unfolding get put
get-put k j v end = refl
get-put k j v (field i w d) = ground (arith, eq_iff i k, eq_iff i j, eq_iff k j, get-put k j v d)

pub get-set_default :
    (k j : String) (v : Json) (d : Fields)
    → get j (set_default k v d)
      ≡ (if k == j then (elim (get k d) [ none ↦ some v | some w ↦ some w ]) else get j d)
unfolding set_default
get-set_default k j v d = ground (arith, get-put k j v d, eq_iff k j)

py_str_test :
    py_str (arr (cons (str "a") (cons (int (pos 120)) (cons (obj (field "k" null end)) nil))))
    ≡ "['a', 120, {'k': None}]"
unfolding py_str decimal
py_str_test = refl
