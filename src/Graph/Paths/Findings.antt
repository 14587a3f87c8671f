-- ===== src/Graph/Paths/Findings.antt =====
-- The findings of the injection-path check: one for each path, graded by its weakest evidence.
use agent_perimeter.Prelude.{
  ◌≡◌, refl, String, true, some, List, [], ◌∷◌, ◌++◌, map, All, beq_refl, ◌==◌, string_eq, arith,
  Bool-cases, Option-cases, inl, inr,
}
use agent_perimeter.Contracts.{Capability, capability_eq}
use agent_perimeter.Graph.Build.{CapabilityEdge}
use agent_perimeter.Graph.Policy.{edges_of, derivation_of, min_rank}
use agent_perimeter.Graph.Policy.Grouped.{holds}
use agent_perimeter.Graph.Policy.Weakest.{IsLowest, min_rank-IsLowest}
use agent_perimeter.Graph.Paths.{
  external_sources, find_paths, PathFinding, path_finding, path_findings, prove_paths,
}
use agent_perimeter.Graph.Paths.Pairs.{holds_one, is_path, find_paths-is_path}

abbrev pub ends : PathFinding → String × String
ends f = (f.source, f.sink)

-- The finding's derivation is the one of some edge of its two tools, and none of their edges ranks
-- below it.
abbrev pub IsWeakest : List CapabilityEdge → PathFinding → Type 0
IsWeakest edges f =
    IsLowest f.derivation (map derivation_of (edges_of f.source edges ++ edges_of f.sink edges))

-- A tool that holds something has an edge.
edges_of-full :
    (edges : List CapabilityEdge) (tool : String) (c : Capability)
    → holds edges tool c ≡ true
    → (e : CapabilityEdge) × (es : List CapabilityEdge) × (edges_of tool edges ≡ e ∷ es)
edges_of-full [] tool c h = absurd (cc)
edges_of-full (e ∷ es) tool c h = elim (Bool-cases (e.tool == tool)) [
  | inl own ↦ (e, edges_of tool es, simp own refl)
  | inr other ↦
      let (e', rest, found) = edges_of-full es tool c (simp other at h) in
      (e', rest, simp other found)
]

edges_of-full_one :
    (edges : List CapabilityEdge) (tool : String) (cs : List Capability)
    → holds_one edges tool cs ≡ true
    → (e : CapabilityEdge) × (es : List CapabilityEdge) × (edges_of tool edges ≡ e ∷ es)
edges_of-full_one edges tool [] h = absurd (cc)
edges_of-full_one edges tool (c ∷ cs) h = elim (Bool-cases (holds edges tool c)) [
  | inl own ↦ edges_of-full edges tool c own
  | inr other ↦ edges_of-full_one edges tool cs (ground (arith, h, other))
]

-- The paths that have a finding.
abbrev AreSources : List CapabilityEdge → List (String × String) → Type 0
AreSources edges ps = All (λ p. holds_one edges p.0 external_sources ≡ true) ps

path_finding-some :
    (edges : List CapabilityEdge) (p : String × String)
    → holds_one edges p.0 external_sources ≡ true
    → (f : PathFinding) × (path_finding edges p ≡ some f) × (ends f ≡ p) × IsWeakest edges f
path_finding-some edges (s, k) h =
    let (e, es, full) = edges_of-full_one edges s external_sources h in
    elim (Option-cases (min_rank (map derivation_of (edges_of s edges ++ edges_of k edges)))) [
      | inl raised ↦ absurd (let impossible = rw full at raised in cc)
      | inr (d, found) ↦ (
        record {
          source = s;
          sink = k;
          derivation = d;
          source_edges = edges_of s edges;
          sink_edges = edges_of k edges;
        },
        rw (found, path_finding) refl,
        refl,
        min_rank-IsLowest (map derivation_of (edges_of s edges ++ edges_of k edges)) d found,
      )
    ]

path_findings-some :
    (edges : List CapabilityEdge) (ps : List (String × String))
    → AreSources edges ps
    → (fs : List PathFinding) × (path_findings edges ps ≡ some fs)
      × (map ends fs ≡ ps)
      × All (IsWeakest edges) fs
path_findings-some edges [] h = ([], refl, refl, tt)
path_findings-some edges (p ∷ ps) h =
    let (f, found, at, weak) = path_finding-some edges p h.0 in
    let (fs, all_found, all_at, all_weak) = path_findings-some edges ps h.1 in
    (f ∷ fs, rw (found, all_found, path_findings) refl, rw (at, all_at) refl, (weak, all_weak))

paths-AreSources :
    (edges : List CapabilityEdge) (ps : List (String × String))
    → ((s k : String) → is_path s k ps ≡ true → holds_one edges s external_sources ≡ true)
    → AreSources edges ps
paths-AreSources edges [] h = tt
paths-AreSources edges (p ∷ ps) h = (
  h p.0 p.1 (rw (beq_refl p.0, beq_refl p.1) refl),
  paths-AreSources edges ps (λ s k later. h s k (ground (arith, later))),
)

find_paths-AreSources : (edges : List CapabilityEdge) → AreSources edges (find_paths edges)
find_paths-AreSources edges =
    paths-AreSources edges (find_paths edges)
      (λ s k path. ground (arith, path, find_paths-is_path edges s k))

-- The check never raises. It has one finding for each injection path, in their order, and each
-- finding's derivation is the weakest among the edges of its two tools.
pub prove_paths_total :
    (edges : List CapabilityEdge)
    → (fs : List PathFinding) × (prove_paths edges ≡ some fs)
      × (map ends fs ≡ find_paths edges)
      × All (IsWeakest edges) fs
unfolding prove_paths
prove_paths_total edges = path_findings-some edges (find_paths edges) (find_paths-AreSources edges)
