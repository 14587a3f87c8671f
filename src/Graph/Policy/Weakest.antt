-- ===== src/Graph/Policy/Weakest.antt =====
-- `_weakest` finds a derivation of the tool's own that none of its others ranks below.
use agent_perimeter.Prelude.{
  ◌≤◌, ◌≡◌, refl, subst, String, true, false, some, List, [], ◌∷◌, map, any, contains, All, ltb,
  ◌==◌, string_eq, arith, Bool-cases, inl, inr,
}
use agent_perimeter.Contracts.{Derivation, derivation_eq}
use agent_perimeter.Graph.Build.{CapabilityEdge}
use agent_perimeter.Graph.Policy.{
  derivation_rank, edges_of, lowest, min_rank, derivation_of, weakest,
}
use agent_perimeter.Graph.Policy.Grouped.{mentions}

-- The derivation is among these, and none of them ranks lower.
abbrev pub IsLowest : Derivation → List Derivation → Type 0
IsLowest d ds = (contains d ds ≡ true) × All (λ x. derivation_rank d ≤ derivation_rank x) ds

lowest-le :
    (best : Derivation) (ds : List Derivation)
    → derivation_rank (lowest best ds) ≤ derivation_rank best
lowest-le best [] = omega arith
lowest-le best (d ∷ ds) = elim (Bool-cases (ltb (derivation_rank d) (derivation_rank best))) [
  | inl below ↦ rw (below, lowest) (ground (arith, below, lowest-le d ds))
  | inr above ↦ rw (above, lowest) (lowest-le best ds)
]

lowest-below :
    (best d : Derivation) (ds : List Derivation)
    → ltb (derivation_rank d) (derivation_rank best) ≡ true
    → lowest d ds ≡ lowest best (d ∷ ds)
lowest-below best d ds below = rw (below, lowest) refl

lowest-above :
    (best d : Derivation) (ds : List Derivation)
    → ltb (derivation_rank d) (derivation_rank best) ≡ false
    → lowest best ds ≡ lowest best (d ∷ ds)
lowest-above best d ds above = rw (above, lowest) refl

-- A derivation ranks at most as high as all of these.
abbrev Below : Derivation → List Derivation → Type 0
Below d ds = All (λ x. derivation_rank d ≤ derivation_rank x) ds

lowest-Below : (best : Derivation) (ds : List Derivation) → Below (lowest best ds) ds
lowest-Below best [] = tt
lowest-Below best (d ∷ ds) = elim (Bool-cases (ltb (derivation_rank d) (derivation_rank best))) [
  | inl below ↦
      subst (λ (y : Derivation). Below y (d ∷ ds)) (lowest-below best d ds below)
        (lowest-le d ds, lowest-Below d ds)
  | inr above ↦
      subst (λ (y : Derivation). Below y (d ∷ ds)) (lowest-above best d ds above)
        (ground (arith, above, lowest-le best ds), lowest-Below best ds)
]

contains-lowest :
    (best : Derivation) (ds : List Derivation) → contains (lowest best ds) (best ∷ ds) ≡ true
contains-lowest best [] = ground (arith, derivation_eq.equal_iff best best)
contains-lowest best (d ∷ ds) = elim (Bool-cases (ltb (derivation_rank d) (derivation_rank best))) [
  | inl below ↦
      subst (λ (y : Derivation). contains y (best ∷ d ∷ ds) ≡ true) (lowest-below best d ds below)
        (ground (arith, contains-lowest d ds))
  | inr above ↦
      subst (λ (y : Derivation). contains y (best ∷ d ∷ ds) ≡ true) (lowest-above best d ds above)
        (ground (arith, contains-lowest best ds))
]

pub min_rank-IsLowest :
    (ds : List Derivation) (d : Derivation) → min_rank ds ≡ some d → IsLowest d ds
min_rank-IsLowest [] d e = absurd (ground arith)
min_rank-IsLowest (x ∷ ds) d e =
    subst (λ (y : Derivation). IsLowest y (x ∷ ds)) (ground (arith, e))
      (contains-lowest x ds, (lowest-le x ds, lowest-Below x ds))

abbrev pub derivations_of : List CapabilityEdge → String → List Derivation
derivations_of edges tool = map derivation_of (edges_of tool edges)

pub weakest-IsLowest :
    (edges : List CapabilityEdge) (tool : String) (d : Derivation)
    → weakest edges tool ≡ some d
    → IsLowest d (derivations_of edges tool)
unfolding weakest
weakest-IsLowest edges tool d e = min_rank-IsLowest (derivations_of edges tool) d e

min_rank-full :
    (edges : List CapabilityEdge) (tool : String)
    → mentions edges tool ≡ true
    → (d : Derivation) × (min_rank (derivations_of edges tool) ≡ some d)
min_rank-full [] tool h = absurd (cc)
min_rank-full (e ∷ es) tool h = elim (Bool-cases (e.tool == tool)) [
  | inl own ↦ rw (own, edges_of, map) (lowest e.derivation (derivations_of es tool), refl)
  | inr other ↦ rw (other, edges_of, map) (min_rank-full es tool (rw (other, any) at h))
]

-- `min` does not raise for a tool that has an edge.
pub weakest-mentions :
    (edges : List CapabilityEdge) (tool : String)
    → mentions edges tool ≡ true
    → (d : Derivation) × (weakest edges tool ≡ some d)
unfolding weakest
weakest-mentions edges tool h = min_rank-full edges tool h
