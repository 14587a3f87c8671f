-- ===== src/Json.antt =====
-- JSON values as Python reads them: the `dict[str, object]` and `object` of the whole program. A
-- dict keeps its entries in insertion order.
pub mod Print
pub mod Dumps
use agent_perimeter.Prelude.{
  ℤ, String, Bool, true, false, Option, none, some, List, [], ◌∷◌, Table, lookup, string_eq,
}

mutual
  pub data Value : Type 0 where
    str : String → Value
    int : ℤ → Value
    -- the decimal text that Python prints for the float
    float : String → Value
    bool : Bool → Value
    null : Value
    obj : Fields → Value
    arr : Items → Value

  -- the entries of a dict
  pub data Fields : Type 0 where
    field : String → Value → Fields → Fields
    end : Fields

  -- the entries of a list
  pub data Items : Type 0 where
    cons : Value → Items → Items
    nil : Items

abbrev pub Object : Type 0
Object = Table String Value

abbrev pub items : Items → List Value
items nil = []
items (cons v vs) = v ∷ items vs

abbrev pub entries : Fields → Object
entries end = []
entries (field k v fs) = (k, v) ∷ entries fs

-- `isinstance(v, dict)`, `isinstance(v, list)` and `isinstance(v, str)`, with what they find
abbrev pub as_object : Value → Option Object
as_object (obj fs) = some (entries fs)
as_object _ = none

abbrev pub as_list : Value → Option (List Value)
as_list (arr vs) = some (items vs)
as_list _ = none

abbrev pub as_str : Value → Option String
as_str (str s) = some s
as_str _ = none

-- `o.get(k)` held to a type: none if it is missing or of another type
module _ (k : String) (o : Object) where
  abbrev pub get_object : Option Object
  get_object = elim (lookup k o) [ none ↦ none | some v ↦ as_object v ]

  abbrev pub get_list : Option (List Value)
  get_list = elim (lookup k o) [ none ↦ none | some v ↦ as_list v ]

  abbrev pub get_str : Option String
  get_str = elim (lookup k o) [ none ↦ none | some v ↦ as_str v ]

-- Python's `str(v)`. The text of a number or a container is `render v`.
abbrev pub py_str : (Value → String) → Value → String
py_str render (str s) = s
py_str render null = "None"
py_str render (bool true) = "True"
py_str render (bool false) = "False"
py_str render v = render v
