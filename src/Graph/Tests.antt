-- ===== src/Graph/Tests.antt =====
-- A small tool set at which the theorems on the graph are applied.
use agent_perimeter.Prelude.{
  ◌≡◌, refl, String, not, ◌&&◌, Option, none, some, List, [], ◌∷◌, map, any, contains, All,
  string_eq, if◌then◌else◌, ◌==◌,
}
use agent_perimeter.Json.{obj, field, end, null}
use agent_perimeter.Contracts.{name, description, capability_eq, fs_read, net_out, exec}
use agent_perimeter.Discover.Parse.{ToolRecord}
use agent_perimeter.Graph.Build.{
  CapabilityEdge, edge, parameter, says, build_graph, found_of, add_name, add_names,
  add_description,
}
use agent_perimeter.Graph.Build.Edges.{edges_with, all_evidence, build_graph-all_evidence}
use agent_perimeter.Graph.Policy.{
  confused_deputy, PolicyFinding, finding, capabilities_by_tool, grouped_from, weakest,
  tool_findings, grouped_findings, evaluate,
}
use agent_perimeter.Graph.Policy.Findings.{findings_of}
use agent_perimeter.Graph.Policy.Reports.{
  policy_of, expected_policies, evaluate_reports, IsGraded, evaluate-IsGraded,
}
use agent_perimeter.Graph.Paths.{
  external_sources, privileged_sinks, find_paths, PathFinding, prove_paths, path_sinks,
  classify_sinks, classify_from, stronger,
}
use agent_perimeter.Graph.Paths.Pairs.{holds_one, is_path, find_paths-is_path}
use agent_perimeter.Graph.Paths.Sinks.{is_solid}
use agent_perimeter.Graph.Paths.Backing.{is_sink, path_sinks_divide}
use agent_perimeter.Graph.Paths.Findings.{ends, IsWeakest, prove_paths_total}

-- Matches two of the patterns, each on one text.
abbrev search : String → String → Option String
search pattern text =
    if (pattern == "^(url|uri|endpoint|host|webhook|callback)$") && (text == "url")
    then some "url"
    else if (pattern == "\\b(read|open|load)s?\\b.{0,20}\\bfile\\b") && (text == "reads a file")
    then some "reads a file"
    else none

abbrev fetch : ToolRecord
fetch = record {
  name = "fetch";
  description = "reads a file";
  input_schema = ("properties", obj (field "url" null end)) ∷ [];
  annotations = [];
}

abbrev fetch_edges : List CapabilityEdge
fetch_edges =
    edge "fetch" net_out name (parameter "url")
    ∷ edge "fetch" fs_read description (says "reads a file")
    ∷ []

fetch-edges : build_graph search (fetch ∷ []) ≡ fetch_edges
unfolding build_graph found_of add_names add_name add_description
fetch-edges = refl

build_graph-all_evidence_example :
    edges_with "fetch" net_out (build_graph search (fetch ∷ []))
    ≡ all_evidence search "fetch" net_out (fetch ∷ [])
build_graph-all_evidence_example = build_graph-all_evidence search "fetch" net_out (fetch ∷ [])

-- A shell beside the fetcher.
abbrev edges : List CapabilityEdge
edges = edge "shell" exec name (parameter "cmd") ∷ fetch_edges

evaluate_reports_example :
    (fs : List PolicyFinding) × (evaluate edges ≡ some fs)
    × ((tool : String) → map policy_of (findings_of edges tool fs) ≡ expected_policies edges tool)
evaluate_reports_example = evaluate_reports edges

evaluate-IsGraded_example :
    All (IsGraded edges) (finding edges "fetch" confused_deputy description ∷ [])
unfolding evaluate capabilities_by_tool grouped_from grouped_findings tool_findings weakest
evaluate-IsGraded_example =
    evaluate-IsGraded edges (finding edges "fetch" confused_deputy description ∷ []) refl

find_paths-is_path_example : is_path "fetch" "shell" (find_paths edges) ≡ (
    holds_one edges "fetch" external_sources
    && (holds_one edges "shell" privileged_sinks && not (◌==◌ {A = String} "fetch" "shell")))
find_paths-is_path_example = find_paths-is_path edges "fetch" "shell"

path_sinks_divide_example :
    (contains "shell" (path_sinks edges).0
      ≡ (is_sink edges "shell" && any (is_solid "shell") edges))
    × (contains "shell" (path_sinks edges).1
        ≡ (is_sink edges "shell" && not (any (is_solid "shell") edges)))
path_sinks_divide_example = path_sinks_divide edges "shell"

shell-IsBacked : path_sinks edges ≡ ("shell" ∷ [], [])
unfolding path_sinks classify_sinks classify_from stronger find_paths capabilities_by_tool
    grouped_from
shell-IsBacked = refl

prove_paths_total_example :
    (fs : List PathFinding) × (prove_paths edges ≡ some fs)
    × (map ends fs ≡ find_paths edges)
    × All (IsWeakest edges) fs
prove_paths_total_example = prove_paths_total edges
