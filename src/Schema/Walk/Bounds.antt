-- ===== src/Schema/Walk/Bounds.antt =====
-- What the walk lets through is small: it never returns from a schema beyond its bounds.
use agent_perimeter.Prelude.{
  ℕ, suc, ◌+◌, ◌≤◌, ◌≡◌, refl, ap, subst, String, Option, none, some, List, [], ◌∷◌, ◌++◌, lookup,
  values, ltb, string_eq, arith, Bool-cases, inl, inr,
}
use agent_perimeter.Json.{
  Value, str, int, float, bool, null, obj, arr, Fields, field, end, Items, cons, nil, entries,
  items, get_str,
}
use agent_perimeter.Model.Scope.{codes}
use agent_perimeter.Schema.Pointer.{resolve_local_pointer}
use agent_perimeter.Schema.Walk.{
  max_schema_depth, max_subschema_count, max_total_nodes, Entry, node, ref_closed, RefState,
  in_progress, done, Walk, Visit, go, crossed, push_all, starts_with_hash, open_ref, by_state,
  take_ref, take_ref?, push_values, enter, visit,
}

-- The nodes of a schema, and its dicts.
unfoldable mutual
  pub node_count : Value → ℕ
  node_count (obj fs) = suc (field_nodes fs)
  node_count (arr vs) = suc (item_nodes vs)
  node_count v = 1

  pub field_nodes : Fields → ℕ
  field_nodes end = 0
  field_nodes (field k v fs) = node_count v + field_nodes fs

  pub item_nodes : Items → ℕ
  item_nodes nil = 0
  item_nodes (cons v vs) = node_count v + item_nodes vs

unfoldable mutual
  pub dict_count : Value → ℕ
  dict_count (obj fs) = suc (field_dicts fs)
  dict_count (arr vs) = item_dicts vs
  dict_count v = 0

  pub field_dicts : Fields → ℕ
  field_dicts end = 0
  field_dicts (field k v fs) = dict_count v + field_dicts fs

  pub item_dicts : Items → ℕ
  item_dicts nil = 0
  item_dicts (cons v vs) = dict_count v + item_dicts vs

module _ (size : Value → ℕ) where
  abbrev pub sum_of : List Value → ℕ
  sum_of [] = 0
  sum_of (v ∷ vs) = size v + sum_of vs

  abbrev pub on_stack : List Entry → ℕ
  on_stack [] = 0
  on_stack (node v d ∷ stack) = size v + on_stack stack
  on_stack (ref_closed ref ∷ stack) = on_stack stack

  on_stack-push_all :
      (vs : List Value) (d : ℕ) (stack : List Entry)
      → on_stack (push_all vs d stack) ≡ sum_of vs + on_stack stack
  unfolding push_all
  on_stack-push_all [] d stack = omega arith
  on_stack-push_all (v ∷ vs) d stack = omega (arith, on_stack-push_all vs d (node v d ∷ stack))

-- A visit loses nothing that is still to be counted, and adds these two sizes.
abbrev pub Grows : ℕ → ℕ → Walk → Visit → Type 0
Grows n k w (crossed b) = Unit
Grows n k w (go w') =
    (w.total + on_stack node_count w.stack + n ≤ w'.total + on_stack node_count w'.stack)
    × (w.subschemas + on_stack dict_count w.stack + k
        ≤ w'.subschemas + on_stack dict_count w'.stack)
    × (w.subschemas ≤ max_subschema_count → w'.subschemas ≤ max_subschema_count)

open_ref-Grows :
    (ref : String) (d : ℕ) (o : Option Value) (w : Walk) → Grows 0 0 w (go (open_ref ref d o w))
open_ref-Grows ref d none w = (omega arith, omega arith, λ h. h)
open_ref-Grows ref d (some t) w = (omega arith, omega arith, λ h. h)

by_state-Grows :
    (root : Value) (ref : String) (d : ℕ) (o : Option RefState) (w : Walk)
    → Grows 0 0 w (by_state root ref d o w)
by_state-Grows root ref d (some in_progress) w = tt
by_state-Grows root ref d (some done) w = (omega arith, omega arith, λ h. h)
by_state-Grows root ref d none w = open_ref-Grows ref d (resolve_local_pointer root (codes ref)) w

take_ref?-Grows :
    (root : Value) (o : Option String) (d : ℕ) (w : Walk) → Grows 0 0 w (take_ref? root o d w)
unfolding take_ref
take_ref?-Grows root none d w = (omega arith, omega arith, λ h. h)
take_ref?-Grows root (some ref) d w = elim (Bool-cases (starts_with_hash (codes ref))) [
  | inl local ↦ simp local (
      by_state-Grows root ref d (lookup ref w.ref_state) (record w { found = w.found ++ ref ∷ [] }))
  | inr other ↦ simp other (omega arith, omega arith, λ h. h)
]

push_values-Grows :
    (vs : List Value) (d : ℕ) (w : Walk) (r : Visit)
    → Grows 0 0 w r
    → Grows (sum_of node_count vs) (sum_of dict_count vs) w (push_values vs d r)
push_values-Grows vs d w (crossed b) h = tt
push_values-Grows vs d w (go w') h = (
  omega (arith, h.0, on_stack-push_all node_count vs d w'.stack),
  omega (arith, h.1, on_stack-push_all dict_count vs d w'.stack),
  h.2,
)

field_nodes-sum_of : (fs : Fields) → field_nodes fs ≡ sum_of node_count (values (entries fs))
unfolding field_nodes
field_nodes-sum_of end = refl
field_nodes-sum_of (field k v fs) = ap (node_count v +◌) (field_nodes-sum_of fs)

field_dicts-sum_of : (fs : Fields) → field_dicts fs ≡ sum_of dict_count (values (entries fs))
unfolding field_dicts
field_dicts-sum_of end = refl
field_dicts-sum_of (field k v fs) = ap (dict_count v +◌) (field_dicts-sum_of fs)

item_nodes-sum_of : (vs : Items) → item_nodes vs ≡ sum_of node_count (items vs)
unfolding item_nodes
item_nodes-sum_of nil = refl
item_nodes-sum_of (cons v vs) = ap (node_count v +◌) (item_nodes-sum_of vs)

item_dicts-sum_of : (vs : Items) → item_dicts vs ≡ sum_of dict_count (items vs)
unfolding item_dicts
item_dicts-sum_of nil = refl
item_dicts-sum_of (cons v vs) = ap (dict_count v +◌) (item_dicts-sum_of vs)

-- The count of a dict is a growth of its own.
Grows-count :
    (n k : ℕ) (w : Walk) (r : Visit)
    → w.subschemas + 1 ≤ max_subschema_count
    → Grows n k (record w { subschemas = w.subschemas + 1 }) r
    → Grows n (suc k) w r
Grows-count n k w (crossed b) few h = tt
Grows-count n k w (go w') few h = (h.0, omega (arith, h.1), λ small. h.2 few)

enter-Grows :
    (root v : Value) (d n : ℕ) (w : Walk)
    → suc n ≡ node_count v
    → Grows n (dict_count v) w (enter root v d w)
unfolding enter node_count dict_count
enter-Grows root (obj fs) d n w e =
    let o = get_str "$ref" (entries fs) in
    let w' = record w { subschemas = w.subschemas + 1 } in
    let vs = values (entries fs) in
    elim (Bool-cases (ltb max_subschema_count (w.subschemas + 1))) [
      | inl many ↦ simp many tt
      | inr few ↦
          let all_values =
            push_values-Grows vs (d + 1) w' (take_ref? root o d w') (take_ref?-Grows root o d w') in
          simp few (
            Grows-count n (field_dicts fs) w (push_values vs (d + 1) (take_ref? root o d w'))
              (ground (arith, few))
              (rw (field_dicts-sum_of fs) (
                subst
                  (λ (m : ℕ).
                    Grows m (sum_of dict_count vs) w'
                      (push_values vs (d + 1) (take_ref? root o d w')))
                  (omega (arith, e, field_nodes-sum_of fs)) all_values)))
    ]
enter-Grows root (arr vs) d n w e = (
  omega (arith, e, item_nodes-sum_of vs, on_stack-push_all node_count (items vs) (d + 1) w.stack),
  omega (arith, item_dicts-sum_of vs, on_stack-push_all dict_count (items vs) (d + 1) w.stack),
  λ h. h,
)
enter-Grows root (str s) d n w e = (omega (arith, e), omega arith, λ h. h)
enter-Grows root (int i) d n w e = (omega (arith, e), omega arith, λ h. h)
enter-Grows root (float s) d n w e = (omega (arith, e), omega arith, λ h. h)
enter-Grows root (bool b) d n w e = (omega (arith, e), omega arith, λ h. h)
enter-Grows root null d n w e = (omega (arith, e), omega arith, λ h. h)

node_count-pos : (v : Value) → (n : ℕ) × (suc n ≡ node_count v)
unfolding node_count
node_count-pos (obj fs) = (field_nodes fs, refl)
node_count-pos (arr vs) = (item_nodes vs, refl)
node_count-pos (str s) = (0, refl)
node_count-pos (int i) = (0, refl)
node_count-pos (float s) = (0, refl)
node_count-pos (bool b) = (0, refl)
node_count-pos null = (0, refl)

Grows-total :
    (n k : ℕ) (w : Walk) (r : Visit)
    → Grows n k (record w { total = w.total + 1 }) r
    → Grows (suc n) k w r
Grows-total n k w (crossed b) h = tt
Grows-total n k w (go w') h = (omega (arith, h.0), h.1, h.2)

pub visit-Grows :
    (root v : Value) (d : ℕ) (w : Walk) → Grows (node_count v) (dict_count v) w (visit root v d w)
unfolding visit
visit-Grows root v d w = elim (Bool-cases (ltb max_total_nodes (w.total + 1))) [
  | inl many ↦ simp many tt
  | inr few ↦ elim (Bool-cases (ltb max_schema_depth d)) [
    | inl deep ↦ simp (few, deep) tt
    | inr shallow ↦
        let (n, e) = node_count-pos v in
        let w' = record w { total = w.total + 1 } in
        simp (few, shallow)
          (subst (λ (m : ℕ). Grows m (dict_count v) w (enter root v d w')) e
            (Grows-total n (dict_count v) w (enter root v d w') (enter-Grows root v d n w' e)))
  ]
]
