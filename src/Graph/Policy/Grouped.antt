-- ===== src/Graph/Policy/Grouped.antt =====
-- What `capabilities_by_tool` says of a tool is what the edges say of it.
use agent_perimeter.Prelude.{
  ◌≡◌, refl, ap, sym, ◌∙◌, String, Bool, ◌&&◌, ◌||◌, List, [], ◌∷◌, any, contains, lookup, insert,
  keys, get_or, lookup-insert, ◌==◌, string_eq, eq_iff, beq_refl, contains-keys-insert, IsDistinct,
  IsDistinct-insert, arith, Bool-cases, inl, inr,
}
use agent_perimeter.Contracts.{Capability, capability_eq}
use agent_perimeter.Graph.Build.{CapabilityEdge}
use agent_perimeter.Graph.Policy.{Grouped, add, grouped_from, capabilities_by_tool}

-- Some edge gives the tool the capability.
abbrev pub holds : List CapabilityEdge → String → Capability → Bool
holds edges tool c = any (λ e. (e.tool == tool) && (c == e.capability)) edges

abbrev pub capabilities : Grouped → String → List Capability
capabilities t tool = get_or (lookup tool t) []

contains-add :
    (c d : Capability) (cs : List Capability) → contains c (add d cs) ≡ ((c == d) || contains c cs)
contains-add c d cs = elim (Bool-cases (contains d cs)) [
  | inl already ↦ elim (Bool-cases (c == d)) [
    | inl same ↦
        let e = (capability_eq.equal_iff c d).0 same in
        rw (already, add, same) (ap (λ (a : Capability). contains a cs) e ∙ already)
    | inr other ↦ rw (already, add, other) refl
  ]
  | inr new ↦ rw (new, add) refl
]

capabilities-insert :
    (t : Grouped) (e : CapabilityEdge) (tool : String) (c : Capability)
    → contains c (capabilities (insert e.tool (add e.capability (capabilities t e.tool)) t) tool)
      ≡ (contains c (capabilities t tool) || ((e.tool == tool) && (c == e.capability)))
capabilities-insert t e tool c =
    let at = lookup-insert e.tool tool (add e.capability (capabilities t e.tool)) t in
    elim (Bool-cases (tool == e.tool)) [
      | inl same ↦
          let eq = (eq_iff tool e.tool).0 same in
          rw (at, same)
            (contains-add c e.capability (capabilities t e.tool)
              ∙ rw (sym eq, beq_refl tool) (ground arith))
      | inr other ↦ rw (at, other) (ground (arith, eq_iff tool e.tool, eq_iff e.tool tool))
    ]

grouped_from-holds :
    (t : Grouped) (edges : List CapabilityEdge) (tool : String) (c : Capability)
    → contains c (capabilities (grouped_from t edges) tool)
      ≡ (contains c (capabilities t tool) || holds edges tool c)
unfolding grouped_from
grouped_from-holds t [] tool c = ground arith
grouped_from-holds t (e ∷ es) tool c =
    let t' = insert e.tool (add e.capability (capabilities t e.tool)) t in
    ground (arith, grouped_from-holds t' es tool c, capabilities-insert t e tool c)

-- A tool is given a capability by the grouping exactly where some edge gives it.
pub capabilities_by_tool-holds :
    (edges : List CapabilityEdge) (tool : String) (c : Capability)
    → contains c (capabilities (capabilities_by_tool edges) tool) ≡ holds edges tool c
unfolding capabilities_by_tool
capabilities_by_tool-holds edges tool c = grouped_from-holds [] edges tool c

-- Some edge is the tool's.
abbrev pub mentions : List CapabilityEdge → String → Bool
mentions edges tool = any (λ e. e.tool == tool) edges

grouped_from-mentions :
    (t : Grouped) (edges : List CapabilityEdge) (tool : String)
    → contains tool (keys (grouped_from t edges)) ≡ (contains tool (keys t) || mentions edges tool)
unfolding grouped_from
grouped_from-mentions t [] tool = ground arith
grouped_from-mentions t (e ∷ es) tool =
    let caps = add e.capability (capabilities t e.tool) in
    ground (
      arith,
      grouped_from-mentions (insert e.tool caps t) es tool,
      contains-keys-insert e.tool tool caps t,
      eq_iff tool e.tool,
      eq_iff e.tool tool,
    )

-- The tools of the grouping are those of the edges, once each.
pub capabilities_by_tool-mentions :
    (edges : List CapabilityEdge) (tool : String)
    → contains tool (keys (capabilities_by_tool edges)) ≡ mentions edges tool
unfolding capabilities_by_tool
capabilities_by_tool-mentions edges tool = grouped_from-mentions [] edges tool

grouped_from-IsDistinct :
    (t : Grouped) (edges : List CapabilityEdge)
    → IsDistinct (keys t)
    → IsDistinct (keys (grouped_from t edges))
unfolding grouped_from
grouped_from-IsDistinct t [] h = h
grouped_from-IsDistinct t (e ∷ es) h =
    let caps = add e.capability (capabilities t e.tool) in
    grouped_from-IsDistinct (insert e.tool caps t) es (IsDistinct-insert e.tool caps t h)

pub capabilities_by_tool-IsDistinct :
    (edges : List CapabilityEdge) → IsDistinct (keys (capabilities_by_tool edges))
unfolding capabilities_by_tool
capabilities_by_tool-IsDistinct edges = grouped_from-IsDistinct [] edges tt
