-- ===== src/Drift/Keys.antt =====
-- The positional keys of drift/compare.py. A key and a name are the code points of a text.
pub mod Names
pub mod Distinct
use agent_perimeter.Prelude.{
  ℕ, ◌+◌, Bool, true, false, ◌&&◌, Option, none, some, List, [], ◌∷◌, ◌++◌, Table, lookup, insert,
  ◌==◌, nat_eq, list_eq, get_or, if◌then◌else◌,
}
use agent_perimeter.Drift.Digits.{decimal, is_digits, int_of}

abbrev pub Key : Type 0
Key = List ℕ

-- "#"
abbrev pub hash : ℕ
hash = 0x23

-- `name if count == 1 else f"{name}#{count}"`
unfoldable pub key_for : Key → ℕ → Key
key_for name count = if count == 1 then name else name ++ hash ∷ decimal count

-- The loop of `positional_keys`, from the counts in `seen` on.
unfoldable pub keys_from : Table Key ℕ → List Key → List Key
keys_from seen [] = []
keys_from seen (name ∷ names) =
    let count = get_or (lookup name seen) 0 + 1 in
    key_for name count ∷ keys_from (insert name count seen) names

unfoldable pub positional_keys : List Key → List Key
positional_keys names = keys_from [] names

-- `key.rpartition("#")`: the parts before and after the last one; `none` where there is none, and
-- then Python's separator is empty.
unfoldable pub rpartition : Key → Option (Key × Key)
rpartition [] = none
rpartition (c ∷ cs) = elim (rpartition cs) [
  | none ↦ if c == hash then some ([], cs) else none
  | some (front, back) ↦ some (c ∷ front, back)
]

-- `plain_name`
abbrev pub plain_part : Key → Option (Key × Key) → Key
plain_part key none = key
plain_part key (some (name, index)) = if is_digits index then name else key

unfoldable pub plain_name : Key → Key
plain_name key = plain_part key (rpartition key)

-- `key_order`: `none` where `int` raises
abbrev pub order_part : Key → Option (Key × Key) → Option (Key × ℕ)
order_part key none = some (key, 1)
order_part key (some (name, index)) =
    if is_digits index
    then elim (int_of index) [ none ↦ none | some i ↦ some (name, i) ]
    else some (key, 1)

unfoldable pub key_order : Key → Option (Key × ℕ)
key_order key = order_part key (rpartition key)
