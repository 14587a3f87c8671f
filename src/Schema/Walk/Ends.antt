-- ===== src/Schema/Walk/Ends.antt =====
-- The walk ends: each node that it visits is counted, the count is bounded, and each node opens at
-- most one marker.
use agent_perimeter.Prelude.{
  ℕ, suc, ◌+◌, ◌*◌, ◌≤◌, ◌<◌, ◌≡◌, refl, String, Option, none, some, List, [], ◌∷◌, ◌++◌, lookup,
  values, ltb, string_eq, arith, Bool-cases, inl, inr,
}
use agent_perimeter.Json.{Value, str, int, float, bool, null, obj, arr, entries, items, get_str}
use agent_perimeter.Model.Scope.{codes}
use agent_perimeter.Schema.Pointer.{resolve_local_pointer}
use agent_perimeter.Schema.Walk.{
  max_schema_depth, max_subschema_count, max_total_nodes, Entry, node, ref_closed, RefState,
  in_progress, done, Walk, Visit, go, crossed, push_all, starts_with_hash, open_ref, by_state,
  take_ref, take_ref?, push_values, enter, visit,
}

abbrev pub markers : List Entry → ℕ
markers [] = 0
markers (node v d ∷ stack) = markers stack
markers (ref_closed ref ∷ stack) = suc (markers stack)

markers-push_all :
    (vs : List Value) (d : ℕ) (stack : List Entry) → markers (push_all vs d stack) ≡ markers stack
unfolding push_all
markers-push_all [] d stack = refl
markers-push_all (v ∷ vs) d stack = markers-push_all vs d (node v d ∷ stack)

-- The count is as given, and there is at most one marker more.
abbrev pub Opens : ℕ → ℕ → Visit → Type 0
Opens total ms (crossed b) = Unit
Opens total ms (go w) = (w.total ≡ total) × (markers w.stack ≤ ms + 1)

open_ref-Opens :
    (ref : String) (d : ℕ) (o : Option Value) (w : Walk)
    → Opens w.total (markers w.stack) (go (open_ref ref d o w))
open_ref-Opens ref d none w = (refl, omega arith)
open_ref-Opens ref d (some t) w = (refl, omega arith)

by_state-Opens :
    (root : Value) (ref : String) (d : ℕ) (o : Option RefState) (w : Walk)
    → Opens w.total (markers w.stack) (by_state root ref d o w)
by_state-Opens root ref d (some in_progress) w = tt
by_state-Opens root ref d (some done) w = (refl, omega arith)
by_state-Opens root ref d none w = open_ref-Opens ref d (resolve_local_pointer root (codes ref)) w

take_ref-Opens :
    (root : Value) (ref : String) (d : ℕ) (w : Walk)
    → Opens w.total (markers w.stack) (take_ref root ref d w)
unfolding take_ref
take_ref-Opens root ref d w = elim (Bool-cases (starts_with_hash (codes ref))) [
  | inl local ↦ simp local (
      by_state-Opens root ref d (lookup ref w.ref_state) (record w { found = w.found ++ ref ∷ [] }))
  | inr other ↦ simp other (refl, omega arith)
]

take_ref?-Opens :
    (root : Value) (o : Option String) (d : ℕ) (w : Walk)
    → Opens w.total (markers w.stack) (take_ref? root o d w)
take_ref?-Opens root none d w = (refl, omega arith)
take_ref?-Opens root (some ref) d w = take_ref-Opens root ref d w

push_values-Opens :
    (vs : List Value) (d total ms : ℕ) (r : Visit)
    → Opens total ms r
    → Opens total ms (push_values vs d r)
push_values-Opens vs d total ms (crossed b) h = tt
push_values-Opens vs d total ms (go w) h = (h.0, omega (arith, h.1, markers-push_all vs d w.stack))

enter-Opens :
    (root v : Value) (d : ℕ) (w : Walk) → Opens w.total (markers w.stack) (enter root v d w)
unfolding enter
enter-Opens root (obj fs) d w = elim (Bool-cases (ltb max_subschema_count (w.subschemas + 1))) [
  | inl many ↦ simp many tt
  | inr few ↦ simp few (
      push_values-Opens (values (entries fs)) (d + 1) w.total (markers w.stack)
        (take_ref? root (get_str "$ref" (entries fs)) d
          (record w { subschemas = w.subschemas + 1 }))
        (take_ref?-Opens root (get_str "$ref" (entries fs)) d
          (record w { subschemas = w.subschemas + 1 })))
]
enter-Opens root (arr vs) d w = (refl, omega (arith, markers-push_all (items vs) (d + 1) w.stack))
enter-Opens root (str s) d w = (refl, omega arith)
enter-Opens root (int i) d w = (refl, omega arith)
enter-Opens root (float s) d w = (refl, omega arith)
enter-Opens root (bool b) d w = (refl, omega arith)
enter-Opens root null d w = (refl, omega arith)

-- A node that is entered is counted within the bound.
abbrev pub Counts : Walk → Visit → Type 0
Counts w r =
    Opens (w.total + 1) (markers w.stack) r × ((w' : Walk) → r ≡ go w' → w.total < max_total_nodes)

pub visit-Counts : (root v : Value) (d : ℕ) (w : Walk) → Counts w (visit root v d w)
unfolding visit
visit-Counts root v d w = elim (Bool-cases (ltb max_total_nodes (w.total + 1))) [
  | inl many ↦ simp many (tt, λ w' e. absurd (cc))
  | inr few ↦ elim (Bool-cases (ltb max_schema_depth d)) [
    | inl deep ↦ simp (few, deep) (tt, λ w' e. absurd (cc))
    | inr shallow ↦
        simp (few, shallow)
          (enter-Opens root v d (record w { total = w.total + 1 }), λ w' e. ground (arith, few))
  ]
]

-- Enough fuel for the stack and for all nodes that may still be counted.
abbrev Enough : ℕ → ℕ → ℕ → Type 0
Enough fuel total ms = ms + 2 * (max_total_nodes + 1) ≤ fuel + 2 * total
