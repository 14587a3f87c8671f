-- ===== src/Graph/Build/Edges.antt =====
-- The edges of a whole listing: those that the evidence of each tool gives.
use agent_perimeter.Prelude.{
  ◌≡◌, refl, ap, sym, subst, ◌∙◌, String, Bool, false, ◌&&◌, Option, none, some, List, [], ◌∷◌,
  ◌++◌, filter, filter-append, contains, All, lookup, insert, keys, values, has_key, is_some,
  IsDistinct, IsDistinct-insert, beq_refl, eq_iff, ◌==◌, string_eq, if◌then◌else◌, arith,
  Bool-cases, inl, inr,
}
use agent_perimeter.Contracts.{Derivation, name, description, Capability, capability_eq}
use agent_perimeter.Discover.Parse.{ToolRecord}
use agent_perimeter.Graph.Build.{
  Rationale, Signals, name_signals, description_signals, parameter, says, CapabilityEdge, edge,
  Found, parameter_names, add_name, add_names, add_says, add_description, found_of, build_graph,
}
use agent_perimeter.Graph.Build.Evidence.{evidence, lookup-found_of}

-- An entry's edge is the tool's, and for the capability that is its key.
abbrev IsKeyed : String → Capability × CapabilityEdge → Type 0
IsKeyed tool (c, e) = (e.tool ≡ tool) × (e.capability ≡ c)

-- Each key once, and each with an edge of its own.
abbrev IsOrderly : String → Found → Type 0
IsOrderly tool t = IsDistinct (keys t) × All (IsKeyed tool) t

insert-IsKeyed :
    (tool : String) (c : Capability) (k : Derivation) (why : Rationale) (t : Found)
    → All (IsKeyed tool) t
    → All (IsKeyed tool) (insert c (edge tool c k why) t)
insert-IsKeyed tool c k why [] h = ((refl, refl), tt)
insert-IsKeyed tool c k why ((d, e) ∷ t) h = elim (Bool-cases (c == d)) [
  | inl same ↦ rw (same, insert) ((refl, (capability_eq.equal_iff c d).0 same), h.1)
  | inr other ↦ rw (other, insert) (h.0, insert-IsKeyed tool c k why t h.1)
]

insert-IsOrderly :
    (tool : String) (c : Capability) (k : Derivation) (why : Rationale) (t : Found)
    → IsOrderly tool t
    → IsOrderly tool (insert c (edge tool c k why) t)
insert-IsOrderly tool c k why t h =
    (IsDistinct-insert c (edge tool c k why) t h.0, insert-IsKeyed tool c k why t h.1)

-- The edges that give a tool a capability.
abbrev pub edges_with : String → Capability → List CapabilityEdge → List CapabilityEdge
edges_with tool c = filter (λ e. (e.tool == tool) && (c == e.capability))

abbrev pub to_list : Option CapabilityEdge → List CapabilityEdge
to_list none = []
to_list (some e) = e ∷ []

edges_with-first :
    (tool : String) (c d : Capability) (e : CapabilityEdge) (es : List CapabilityEdge)
    → IsKeyed tool (d, e)
    → edges_with tool c (e ∷ es)
      ≡ (if c == d then e ∷ edges_with tool c es else edges_with tool c es)
edges_with-first tool c d e es h =
    let own : ((e.tool == tool) && (c == e.capability)) ≡ (c == d) =
      rw (h.0, h.1, beq_refl tool) refl in
    simp own refl

edges_with-absent :
    (tool : String) (c : Capability) (t : Found)
    → All (IsKeyed tool) t
    → contains c (keys t) ≡ false
    → edges_with tool c (values t) ≡ []
edges_with-absent tool c [] h n = refl
edges_with-absent tool c ((d, e) ∷ t) h n =
    edges_with-first tool c d e (values t) h.0 ∙ elim (Bool-cases (c == d)) [
      | inl same ↦ absurd (ground (arith, n, same))
      | inr other ↦ rw other (edges_with-absent tool c t h.1 (rw (other, contains) at n))
    ]

edges_with-values :
    (tool : String) (c : Capability) (t : Found)
    → IsOrderly tool t
    → edges_with tool c (values t) ≡ to_list (lookup c t)
edges_with-values tool c [] h = refl
edges_with-values tool c ((d, e) ∷ t) h =
    edges_with-first tool c d e (values t) h.1.0 ∙ elim (Bool-cases (c == d)) [
      | inl same ↦
          let absent =
            subst (λ (x : Capability). contains x (keys t) ≡ false)
              (sym ((capability_eq.equal_iff c d).0 same)) h.0.0 in
          rw same (ap (e ∷◌) (edges_with-absent tool c t h.1.1 absent))
      | inr other ↦ rw other (edges_with-values tool c t (h.0.1, h.1.1))
    ]

-- The edges of another tool are not the tool's.
edges_with-other :
    (tool other : String) (c : Capability) (t : Found)
    → (other == tool) ≡ false
    → All (IsKeyed other) t
    → edges_with tool c (values t) ≡ []
edges_with-other tool other c [] ne h = refl
edges_with-other tool other c ((d, e) ∷ t) ne h =
    let own : ((e.tool == tool) && (c == e.capability)) ≡ false = rw (h.0.0, ne) refl in
    simp own (edges_with-other tool other c t ne h.1)

module _ (search : String → String → Option String) where
  add_name-IsOrderly :
      (tool param : String) (signals : Signals) (t : Found)
      → IsOrderly tool t
      → IsOrderly tool (add_name search tool param signals t)
  unfolding add_name
  add_name-IsOrderly tool param [] t h = h
  add_name-IsOrderly tool param ((pattern, c) ∷ signals) t h =
      elim (Bool-cases (is_some (search pattern param))) [
        | inl hit ↦ simp hit (
            add_name-IsOrderly tool param signals _
              (insert-IsOrderly tool c name (parameter param) t h))
        | inr miss ↦ simp miss (add_name-IsOrderly tool param signals t h)
      ]

  add_names-IsOrderly :
      (tool : String) (params : List String) (t : Found)
      → IsOrderly tool t
      → IsOrderly tool (add_names search tool params t)
  unfolding add_names
  add_names-IsOrderly tool [] t h = h
  add_names-IsOrderly tool (param ∷ params) t h =
      add_names-IsOrderly tool params (add_name search tool param name_signals t)
        (add_name-IsOrderly tool param name_signals t h)

  said-IsOrderly :
      (tool : String) (c : Capability) (r : Option String) (t : Found)
      → IsOrderly tool t
      → IsOrderly tool (if has_key c t then t else add_says tool c r t)
  said-IsOrderly tool c none t h = elim (Bool-cases (has_key c t)) [
    | inl old ↦ rw old h
    | inr new ↦ rw new h
  ]
  said-IsOrderly tool c (some text) t h = elim (Bool-cases (has_key c t)) [
    | inl old ↦ rw old h
    | inr new ↦ rw new (insert-IsOrderly tool c description (says text) t h)
  ]

  add_description-IsOrderly :
      (tool prose : String) (signals : Signals) (t : Found)
      → IsOrderly tool t
      → IsOrderly tool (add_description search tool prose signals t)
  unfolding add_description
  add_description-IsOrderly tool prose [] t h = h
  add_description-IsOrderly tool prose ((pattern, c) ∷ signals) t h =
      add_description-IsOrderly tool prose signals _
        (said-IsOrderly tool c (search pattern prose) t h)

  found_of-IsOrderly : (tool : ToolRecord) → IsOrderly tool.name (found_of search tool)
  unfolding found_of
  found_of-IsOrderly tool =
      add_description-IsOrderly tool.name tool.description description_signals _
        (add_names-IsOrderly tool.name (parameter_names tool.input_schema) [] (tt, tt))

  -- The edges of a tool for a capability: none or one, as the evidence says.
  pub edges_with-found_of :
      (tool : ToolRecord) (c : Capability)
      → edges_with tool.name c (values (found_of search tool)) ≡ to_list (evidence search tool c)
  edges_with-found_of tool c =
      edges_with-values tool.name c (found_of search tool) (found_of-IsOrderly tool)
      ∙ ap to_list (lookup-found_of search tool c)

  -- What the tools of this name in a listing give as evidence for the capability.
  abbrev pub all_evidence : String → Capability → List ToolRecord → List CapabilityEdge
  all_evidence n c [] = []
  all_evidence n c (tool ∷ tools) =
      (if tool.name == n then to_list (evidence search tool c) else []) ++ all_evidence n c tools

  -- The edges of a listing that give a name a capability are those that the evidence of the tools
  -- with this name gives: for each tool one or none, from the last parameter that a name signal
  -- for the capability matches or, only if there is none, from the first description signal for it
  -- that matches.
  pub build_graph-all_evidence :
      (n : String) (c : Capability) (tools : List ToolRecord)
      → edges_with n c (build_graph search tools) ≡ all_evidence n c tools
  unfolding build_graph
  build_graph-all_evidence n c [] = refl
  build_graph-all_evidence n c (tool ∷ tools) =
      let test : CapabilityEdge → Bool = λ e. (e.tool == n) && (c == e.capability) in
      let split = filter-append test (values (found_of search tool)) (build_graph search tools) in
      let rest = build_graph-all_evidence n c tools in
      split ∙ elim (Bool-cases (tool.name == n)) [
        | inl own ↦
            rw (own, rest)
              (ap (λ (es : List CapabilityEdge). es ++ all_evidence n c tools)
                (subst
                  (λ (x : String).
                    edges_with x c (values (found_of search tool))
                    ≡ to_list (evidence search tool c))
                  ((eq_iff tool.name n).0 own) (edges_with-found_of tool c)))
        | inr other ↦
            rw (other, rest)
              (ap (λ (es : List CapabilityEdge). es ++ all_evidence n c tools)
                (edges_with-other n tool.name c (found_of search tool) other
                  (found_of-IsOrderly tool).1))
      ]
