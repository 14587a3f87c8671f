-- ===== src/Graph/Paths.antt =====
-- agent_perimeter/checks/injection/path_proof.py: the injection paths of a tool set, how their sinks
-- are backed, and the check's findings. A set is a list; a finding's texts are left out, but for
-- what they quote.
pub mod Pairs
pub mod Sinks
pub mod Backing
pub mod Findings
use agent_perimeter.Prelude.{
  ℕ, String, Bool, true, false, not, ◌&&◌, ◌||◌, Option, none, some, List, [], ◌∷◌, ◌++◌, map,
  filter, contains, Table, lookup, insert, keys, ltb, ◌==◌, nat_eq, string_eq, if◌then◌else◌,
}
use agent_perimeter.Json.Print.{text_leb}
use agent_perimeter.Model.Scope.{codes}
use agent_perimeter.Contracts.{
  Derivation, description, derivation_value, derivation_eq, Capability, fs_read, fs_write, net_out,
  exec, db_read, db_write, capability_eq,
}
use agent_perimeter.Graph.Build.{CapabilityEdge}
use agent_perimeter.Graph.Policy.{
  derivation_rank, meets, Grouped, capabilities_by_tool, edges_of, derivation_of, min_rank,
}

abbrev pub external_sources : List Capability
external_sources = net_out ∷ fs_read ∷ db_read ∷ []

abbrev pub privileged_sinks : List Capability
privileged_sinks = exec ∷ fs_write ∷ db_write ∷ net_out ∷ []

-- `[t for t, caps in grouped.items() if caps & others]`
abbrev pub tools_meeting : List Capability → Grouped → List String
tools_meeting others [] = []
tools_meeting others ((tool, caps) ∷ t) =
    let rest = tools_meeting others t in if meets caps others then tool ∷ rest else rest

-- The pairs of one source with the sinks other than itself.
abbrev pub pairs_from : String → List String → List (String × String)
pairs_from s [] = []
pairs_from s (k ∷ sinks) =
    let rest = pairs_from s sinks in if not (s == k) then (s, k) ∷ rest else rest

abbrev pub all_pairs : List String → List String → List (String × String)
all_pairs [] sinks = []
all_pairs (s ∷ sources) sinks = pairs_from s sinks ++ all_pairs sources sinks

unfoldable pub find_paths : List CapabilityEdge → List (String × String)
find_paths edges =
    let grouped = capabilities_by_tool edges in
    all_pairs (tools_meeting external_sources grouped) (tools_meeting privileged_sinks grouped)

pub record SinkClass : Type 0 where
  pub backed : Bool
  pub derivation : Derivation

abbrev pub strength : SinkClass → String
strength c = if c.backed then "backed" else "weak"

-- `>=` on the ranks, and on the derivations' values where the ranks are equal
abbrev pub derivation_ge : Derivation → Derivation → Bool
derivation_ge d d' =
    if derivation_rank d == derivation_rank d'
    then text_leb (codes (derivation_value d')) (codes (derivation_value d))
    else ltb (derivation_rank d') (derivation_rank d)

-- `mine >= theirs`, on the triples that `stronger` compares
abbrev pub at_least : SinkClass → SinkClass → Bool
at_least mine theirs =
    if mine.backed
    then (if theirs.backed then derivation_ge mine.derivation theirs.derivation else true)
    else (if theirs.backed then false else derivation_ge mine.derivation theirs.derivation)

unfoldable pub stronger : SinkClass → Option SinkClass → SinkClass
stronger mine none = mine
stronger mine (some theirs) = if at_least mine theirs then mine else theirs

abbrev pub class_of : CapabilityEdge → SinkClass
class_of e = record { backed = not (e.derivation == description); derivation = e.derivation }

abbrev pub Classes : Type 0
Classes = Table String SinkClass

-- The loop of `classify_sinks`.
unfoldable pub classify_from : List String → Classes → List CapabilityEdge → Classes
classify_from sinks classes [] = classes
classify_from sinks classes (e ∷ es) =
    classify_from sinks
      (if not (contains e.tool sinks) || not (contains e.capability privileged_sinks)
        then classes
        else insert e.tool (stronger (class_of e) (lookup e.tool classes)) classes)
      es

abbrev pub sink_of : String × String → String
sink_of p = p.1

unfoldable pub classify_sinks : List CapabilityEdge → Classes
classify_sinks edges = classify_from (map sink_of (find_paths edges)) [] edges

-- The tools of the classes that are backed, or that are not.
abbrev pub with_backed : Bool → Classes → List String
with_backed b [] = []
with_backed b ((tool, c) ∷ t) =
    let rest = with_backed b t in
    if (if b then c.backed else not c.backed) then tool ∷ rest else rest

-- `path_sinks`: the backed sinks and the others
unfoldable pub path_sinks : List CapabilityEdge → List String × List String
path_sinks edges =
    let classes = classify_sinks edges in (with_backed true classes, with_backed false classes)

pub record PathFinding : Type 0 where
  pub source : String
  pub sink : String
  pub derivation : Derivation
  pub source_edges : List CapabilityEdge
  pub sink_edges : List CapabilityEdge

-- The body of the loop in `PathProofCheck.run`: none where `min` raises.
abbrev pub path_finding : List CapabilityEdge → String × String → Option PathFinding
path_finding edges (s, k) =
    elim (min_rank (map derivation_of (edges_of s edges ++ edges_of k edges))) [
      | none ↦ none
      | some d ↦ some (record {
        source = s;
        sink = k;
        derivation = d;
        source_edges = edges_of s edges;
        sink_edges = edges_of k edges;
      })
    ]

abbrev pub path_findings : List CapabilityEdge → List (String × String) → Option (List PathFinding)
path_findings edges [] = some []
path_findings edges (p ∷ ps) = elim (path_finding edges p) [
  | none ↦ none
  | some f ↦ elim (path_findings edges ps) [ none ↦ none | some fs ↦ some (f ∷ fs) ]
]

-- `run`, from the graph on
unfoldable pub prove_paths : List CapabilityEdge → Option (List PathFinding)
prove_paths edges = path_findings edges (find_paths edges)
