-- ===== src/Schema/Walk/Stops.antt =====
-- Where a walk stops that crosses a bound.
use agent_perimeter.Prelude.{
  ℕ, zero, suc, ◌+◌, ◌≤◌, ◌<◌, String, ◌≡◌, refl, sym, Option, none, some, List, [], ◌∷◌, lookup,
  insert, values, ltb, string_eq, arith, Option-cases, Bool-cases, inl, inr, subst, ◌⊎◌,
}
use agent_perimeter.Json.{Value, obj, arr, str, int, float, bool, null, Fields, entries, get_str}
use agent_perimeter.Model.Scope.{codes}
use agent_perimeter.Schema.Walk.{
  Bound, total_node_count, schema_depth, subschema_count, self_reference, Entry, node, ref_closed,
  RefState, in_progress, done, Walk, Visit, go, crossed, starts_with_hash, by_state, take_ref,
  take_ref?, push_values, enter, visit, exceeded, walk_loop, first_walk, walk_fuel, collect_refs,
}

module _ (root : Value) where
  -- The states of the walk, each with its stack.
  pub data Reached : Walk → List Entry → Type 0 where
    start : Reached (first_walk root) (node root 0 ∷ [])
    closed :
        {w : Walk} {ref : String} {stack : List Entry}
        → Reached w (ref_closed ref ∷ stack)
        → Reached (record w { stack = stack; ref_state = insert ref done w.ref_state }) stack
    went :
        {w w' : Walk} {v : Value} {depth : ℕ} {stack : List Entry}
        → Reached w (node v depth ∷ stack)
        → visit root v depth (record w { stack = stack }) ≡ go w'
        → Reached w' w'.stack

  -- What each bound says of the next node.
  abbrev pub Over : Bound → Value → ℕ → Walk → Type 0
  Over total_node_count v depth w = 5000 ≤ w.total
  Over schema_depth v depth w = 64 < depth
  Over subschema_count v depth w = (2000 ≤ w.subschemas) × ((fs : Fields) × (v ≡ obj fs))
  Over self_reference v depth w =
      (fs : Fields) × (ref : String) × (v ≡ obj fs)
      × (get_str "$ref" (entries fs) ≡ some ref)
      × (lookup ref w.ref_state ≡ some in_progress)

  pub record Crosses (b : Bound) : Type 0 where
    pub state : Walk
    pub value : Value
    pub depth : ℕ
    pub stack : List Entry
    pub reached : Reached state (node value depth ∷ stack)
    pub over : Over b value depth state

  push_values-crossed :
      (vs : List Value) (depth : ℕ) (o : Visit) (b : Bound)
      → push_values vs depth o ≡ crossed b
      → o ≡ crossed b
  push_values-crossed vs depth (crossed c) b h = h
  push_values-crossed vs depth (go w) b h = absurd (cc (h))

  by_state-crossed :
      (ref : String) (depth : ℕ) (o : Option RefState) (w : Walk) (b : Bound)
      → by_state root ref depth o w ≡ crossed b
      → (b ≡ self_reference) × (o ≡ some in_progress)
  by_state-crossed ref depth (some in_progress) w b h = (cc, refl)
  by_state-crossed ref depth (some done) w b h = absurd (cc (h))
  by_state-crossed ref depth none w b h = absurd (cc (h))

  take_ref-crossed :
      (ref : String) (depth : ℕ) (w : Walk) (b : Bound)
      → take_ref root ref depth w ≡ crossed b
      → (b ≡ self_reference) × (lookup ref w.ref_state ≡ some in_progress)
  unfolding take_ref
  take_ref-crossed ref depth w b h = elim (Bool-cases (starts_with_hash (codes ref))) [
    | inl here ↦ by_state-crossed ref depth (lookup ref w.ref_state) _ b (rw (here, take_ref) at h)
    | inr away ↦ absurd (cc (rw (away, take_ref) at h))
  ]

  crossed-inj : (b c : Bound) → crossed b ≡ crossed c → b ≡ c
  crossed-inj b c e = cc

  abbrev EnterOver : Bound → Value → ℕ → Walk → Type 0
  EnterOver total_node_count v depth w = ⊥
  EnterOver schema_depth v depth w = ⊥
  EnterOver subschema_count v depth w = Over subschema_count v depth w
  EnterOver self_reference v depth w = Over self_reference v depth w

  counted-Over :
      (b : Bound) (v : Value) (depth : ℕ) (w : Walk)
      → EnterOver b v depth (record w { total = w.total + 1 })
      → Over b v depth w
  counted-Over total_node_count v depth w o = absurd o
  counted-Over schema_depth v depth w o = absurd o
  counted-Over subschema_count v depth w o = o
  counted-Over self_reference v depth w o = o

  enter-Over :
      (v : Value) (depth : ℕ) (w : Walk) (b : Bound)
      → enter root v depth w ≡ crossed b
      → EnterOver b v depth w
  unfolding enter
  enter-Over (obj fs) depth w b h = elim (Bool-cases (ltb 2000 (w.subschemas + 1))) [
    | inl many ↦
        let e : subschema_count ≡ b = crossed-inj subschema_count b (rw (many, enter) at h) in
        subst (λ (c : Bound). EnterOver c (obj fs) depth w) e (ground (arith, many), (fs, refl))
    | inr few ↦
        let inner =
          push_values-crossed (values (entries fs)) (depth + 1) _ b (rw (few, enter) at h) in
        elim (Option-cases (get_str "$ref" (entries fs))) [
          | inl plain ↦ absurd (cc (rw (plain, take_ref?) at inner))
          | inr (ref, there) ↦
              let (e, open_) = take_ref-crossed ref depth _ b (rw (there, take_ref?) at inner) in
              subst (λ (c : Bound). EnterOver c (obj fs) depth w) (sym e)
                (fs, ref, refl, there, open_)
        ]
  ]
  enter-Over (arr vs) depth w b h = absurd (cc (h))
  enter-Over (str s) depth w b h = absurd (cc (h))
  enter-Over (int z) depth w b h = absurd (cc (h))
  enter-Over (float t) depth w b h = absurd (cc (h))
  enter-Over (bool x) depth w b h = absurd (cc (h))
  enter-Over null depth w b h = absurd (cc (h))

  visit-Over :
      (v : Value) (depth : ℕ) (w : Walk) (b : Bound)
      → visit root v depth w ≡ crossed b
      → Over b v depth w
  unfolding visit
  visit-Over v depth w b h = elim (Bool-cases (ltb 5000 (w.total + 1))) [
    | inl many ↦
        subst (λ (c : Bound). Over c v depth w)
          (crossed-inj total_node_count b (rw (many, visit) at h)) (ground (arith, many))
    | inr few ↦ elim (Bool-cases (ltb 64 depth)) [
      | inl deep ↦
          subst (λ (c : Bound). Over c v depth w)
            (crossed-inj schema_depth b (rw (few, deep, visit) at h)) (ground (arith, deep))
      | inr flat ↦
          counted-Over b v depth w
            (enter-Over v depth (record w { total = w.total + 1 }) b (rw (few, flat, visit) at h))
    ]
  ]

  stacked-Over :
      (b : Bound) (v : Value) (depth : ℕ) (w : Walk) (stack : List Entry)
      → Over b v depth (record w { stack = stack })
      → Over b v depth w
  stacked-Over total_node_count v depth w stack o = o
  stacked-Over schema_depth v depth w stack o = o
  stacked-Over subschema_count v depth w stack o = o
  stacked-Over self_reference v depth w stack o = o

  exceeded-inj : (b c : Bound) → exceeded b ≡ exceeded c → b ≡ c
  exceeded-inj b c e = cc

  Visit-cases : (o : Visit) → ((b : Bound) × (o ≡ crossed b)) ⊎ ((w : Walk) × (o ≡ go w))
  Visit-cases (crossed b) = inl (b, refl)
  Visit-cases (go w) = inr (w, refl)

  walk_loop-Crosses :
      (fuel : ℕ) (w : Walk) (stack : List Entry) (b : Bound)
      → Reached w stack
      → walk_loop fuel root w stack ≡ exceeded b
      → Crosses b
  unfolding walk_loop
  walk_loop-Crosses fuel w [] b r h = absurd (cc (h))
  walk_loop-Crosses zero w (e ∷ stack) b r h = absurd (cc (h))
  walk_loop-Crosses (suc fuel) w (ref_closed ref ∷ stack) b r h =
      walk_loop-Crosses fuel _ stack b (closed r) h
  walk_loop-Crosses (suc fuel) w (node v depth ∷ stack) b r h =
      elim (Visit-cases (visit root v depth (record w { stack = stack }))) [
        | inl (c, e) ↦
            let same : c ≡ b = exceeded-inj c b (rw (e, walk_loop) at h) in
            subst Crosses same (record {
              state = w;
              value = v;
              depth = depth;
              stack = stack;
              reached = r;
              over =
                  stacked-Over c v depth w stack
                    (visit-Over v depth (record w { stack = stack }) c e);
            })
        | inr (w', e) ↦ walk_loop-Crosses fuel w' w'.stack b (went r e) (rw (e, walk_loop) at h)
      ]

  -- A walk that ends at a bound has come to a node at which this bound is crossed.
  pub collect_refs-Crosses : (b : Bound) → collect_refs root ≡ exceeded b → Crosses b
  unfolding collect_refs
  collect_refs-Crosses b h =
      walk_loop-Crosses walk_fuel (first_walk root) (node root 0 ∷ []) b start h
