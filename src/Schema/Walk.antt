-- ===== src/Schema/Walk.antt =====
-- `_collect_refs` of agent_perimeter/checks/revision/schema_composition.py: the walk over a schema
-- with an explicit stack, its bounds, and its colouring of the local refs.
pub mod Ends
pub mod Finds
pub mod Bounds
pub mod Small
pub mod Stops
use agent_perimeter.Prelude.{
  ℕ, zero, suc, ◌+◌, ◌*◌, String, Bool, true, false, Option, none, some, List, [], ◌∷◌, ◌++◌, Table,
  lookup, insert, values, ltb, ◌==◌, nat_eq, string_eq, if◌then◌else◌,
}
use agent_perimeter.Json.{Value, obj, arr, entries, items, get_str}
use agent_perimeter.Json.Print.{Text}
use agent_perimeter.Model.Scope.{codes}
use agent_perimeter.Schema.Pointer.{resolve_local_pointer}

abbrev pub max_schema_depth : ℕ
max_schema_depth = 64

abbrev pub max_subschema_count : ℕ
max_subschema_count = 2000

abbrev pub max_total_nodes : ℕ
max_total_nodes = 5000

-- `SchemaBoundExceeded`, by its kind
pub data Bound : Type 0 where
  total_node_count schema_depth subschema_count self_reference : Bound

-- What stands on the stack: a node at a depth, or the marker `_RefClosed`.
pub data Entry : Type 0 where
  node : Value → ℕ → Entry
  ref_closed : String → Entry

pub data RefState : Type 0 where
  in_progress done : RefState

-- The walk's variables; the head of the stack is popped first.
pub record Walk : Type 0 where
  pub stack : List Entry
  pub subschemas : ℕ
  pub total : ℕ
  pub ref_state : Table String RefState
  pub found : List String

pub data Visit : Type 0 where
  go : Walk → Visit
  crossed : Bound → Visit

-- `for value in values: stack.append((value, depth))`
unfoldable pub push_all : List Value → ℕ → List Entry → List Entry
push_all [] depth stack = stack
push_all (v ∷ vs) depth stack = push_all vs depth (node v depth ∷ stack)

-- `ref.startswith("#")`
abbrev pub starts_with_hash : Text → Bool
starts_with_hash [] = false
starts_with_hash (c ∷ cs) = c == 0x23

-- A local ref that was not seen before, from its target on.
abbrev pub open_ref : String → ℕ → Option Value → Walk → Walk
open_ref ref depth none w = w
open_ref ref depth (some target) w = record w {
  ref_state = insert ref in_progress w.ref_state;
  stack = node target (depth + 1) ∷ ref_closed ref ∷ w.stack;
}

abbrev pub by_state : Value → String → ℕ → Option RefState → Walk → Visit
by_state root ref depth (some in_progress) w = crossed self_reference
by_state root ref depth (some done) w = go w
by_state root ref depth none w = go (open_ref ref depth (resolve_local_pointer root (codes ref)) w)

-- The branch of a dict that has a ref.
unfoldable pub take_ref : Value → String → ℕ → Walk → Visit
take_ref root ref depth w =
    let w' = record w { found = w.found ++ ref ∷ [] } in
    if starts_with_hash (codes ref)
    then by_state root ref depth (lookup ref w.ref_state) w'
    else go w'

abbrev pub take_ref? : Value → Option String → ℕ → Walk → Visit
take_ref? root none depth w = go w
take_ref? root (some ref) depth w = take_ref root ref depth w

abbrev pub push_values : List Value → ℕ → Visit → Visit
push_values vs depth (crossed b) = crossed b
push_values vs depth (go w) = go (record w { stack = push_all vs depth w.stack })

-- The branches by the type of the node.
unfoldable pub enter : Value → Value → ℕ → Walk → Visit
enter root (obj fs) depth w =
    if ltb max_subschema_count (w.subschemas + 1)
    then crossed subschema_count
    else push_values (values (entries fs)) (depth + 1) (
        take_ref? root (get_str "$ref" (entries fs)) depth
          (record w { subschemas = w.subschemas + 1 }))
enter root (arr vs) depth w = go (record w { stack = push_all (items vs) (depth + 1) w.stack })
enter root v depth w = go w

-- A node that was popped, from the count on.
unfoldable pub visit : Value → Value → ℕ → Walk → Visit
visit root v depth w =
    if ltb max_total_nodes (w.total + 1)
    then crossed total_node_count
    else if ltb max_schema_depth depth
    then crossed schema_depth
    else enter root v depth (record w { total = w.total + 1 })

pub data WalkEnd : Type 0 where
  collected : List String → WalkEnd
  exceeded : Bound → WalkEnd
  out_of_fuel : WalkEnd

-- `while stack:`
unfoldable pub walk_loop : ℕ → Value → Walk → List Entry → WalkEnd
walk_loop fuel root w [] = collected w.found
walk_loop zero root w (e ∷ stack) = out_of_fuel
walk_loop (suc fuel) root w (ref_closed ref ∷ stack) =
    walk_loop fuel root (record w { stack = stack; ref_state = insert ref done w.ref_state }) stack
walk_loop (suc fuel) root w (node v depth ∷ stack) =
    elim (visit root v depth (record w { stack = stack })) [
      | crossed b ↦ exceeded b
      | go w' ↦ walk_loop fuel root w' w'.stack
    ]

abbrev pub first_walk : Value → Walk
first_walk v = record {
  stack = node v 0 ∷ [];
  subschemas = 0;
  total = 0;
  ref_state = [];
  found = [];
}

-- More rounds than any walk takes: each node is counted and opens at most one marker.
abbrev pub walk_fuel : ℕ
walk_fuel = 2 * (max_total_nodes + 1)

unfoldable pub collect_refs : Value → WalkEnd
collect_refs v = walk_loop walk_fuel v (first_walk v) (first_walk v).stack
