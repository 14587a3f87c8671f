-- ===== src/Graph/Policy.antt =====
-- agent_perimeter/graph/policy.py: the policies, and their findings over the capability graph. A set
-- of capabilities is a list; a finding's texts are left out, but for what they quote.
pub mod Grouped
pub mod Weakest
pub mod Findings
pub mod Reports
use agent_perimeter.Prelude.{
  ℕ, String, Bool, true, false, ◌&&◌, Option, none, some, List, [], ◌∷◌, ◌++◌, map, filter, any,
  contains, Table, lookup, insert, get_or, ltb, ◌==◌, string_eq, if◌then◌else◌,
}
use agent_perimeter.Contracts.{
  Severity, critical, high, medium, Derivation, schema, name, description, probe, artifact,
  Capability, fs_read, net_out, exec, secret_read, db_read, capability_eq,
}
use agent_perimeter.Graph.Build.{CapabilityEdge}

abbrev pub local_state : List Capability
local_state = fs_read ∷ db_read ∷ secret_read ∷ exec ∷ []

-- `DERIVATION_SEVERITY`
abbrev pub derivation_severity : Derivation → Severity
derivation_severity probe = critical
derivation_severity schema = high
derivation_severity artifact = high
derivation_severity name = medium
derivation_severity description = medium

-- `DERIVATION_RANK`
abbrev pub derivation_rank : Derivation → ℕ
derivation_rank probe = 4
derivation_rank schema = 3
derivation_rank artifact = 3
derivation_rank name = 2
derivation_rank description = 1

pub record Policy : Type 0 where
  pub id : String
  pub title : String
  pub cwe : String
  pub taxonomy_refs : List String
  pub predicate : List Capability → Bool

-- `bool(caps & others)`
abbrev pub meets : List Capability → List Capability → Bool
meets caps others = any (λ c. contains c others) caps

abbrev pub confused_deputy : Policy
confused_deputy = record {
  id = "policy.confused_deputy";
  title = "can both read local state and reach the network";
  cwe = "CWE-441";
  taxonomy_refs = "owasp-llm:LLM06" ∷ "mcp-spec:2026-07-28-security" ∷ [];
  predicate = λ caps. meets caps local_state && contains net_out caps;
}

abbrev pub secret_egress : Policy
secret_egress = record {
  id = "policy.secret_egress";
  title = "can read credentials and reach the network";
  cwe = "CWE-200";
  taxonomy_refs = "owasp-llm:LLM02" ∷ [];
  predicate = λ caps. contains secret_read caps && contains net_out caps;
}

abbrev pub policies : List Policy
policies = confused_deputy ∷ secret_egress ∷ []

-- `set.add`
abbrev pub add : Capability → List Capability → List Capability
add c cs = if contains c cs then cs else c ∷ cs

abbrev pub Grouped : Type 0
Grouped = Table String (List Capability)

-- The loop of `capabilities_by_tool`.
unfoldable pub grouped_from : Grouped → List CapabilityEdge → Grouped
grouped_from t [] = t
grouped_from t (e ∷ es) =
    grouped_from (insert e.tool (add e.capability (get_or (lookup e.tool t) [])) t) es

unfoldable pub capabilities_by_tool : List CapabilityEdge → Grouped
capabilities_by_tool es = grouped_from [] es

abbrev pub edges_of : String → List CapabilityEdge → List CapabilityEdge
edges_of tool = filter (λ e. e.tool == tool)

-- Python's `min` by rank: the first of those that rank lowest, `none` where it raises.
abbrev pub lowest : Derivation → List Derivation → Derivation
lowest best [] = best
lowest best (d ∷ ds) =
    lowest (if ltb (derivation_rank d) (derivation_rank best) then d else best) ds

abbrev pub min_rank : List Derivation → Option Derivation
min_rank [] = none
min_rank (d ∷ ds) = some (lowest d ds)

abbrev pub derivation_of : CapabilityEdge → Derivation
derivation_of e = e.derivation

-- `_weakest`
unfoldable pub weakest : List CapabilityEdge → String → Option Derivation
weakest edges tool = min_rank (map derivation_of (edges_of tool edges))

-- The note of a finding.
pub data Caveat : Type 0 where
  not_confirmed : Caveat
  weakest_evidence : Derivation → Caveat

abbrev pub caveat_for : Derivation → Caveat
caveat_for description = not_confirmed
caveat_for d = weakest_evidence d

-- What is particular to one finding; `backing` gives its rationales and the parents of its claim.
pub record PolicyFinding : Type 0 where
  pub policy : Policy
  pub tool : String
  pub severity : Severity
  pub derivation : Derivation
  pub backing : List CapabilityEdge
  pub caveat : Caveat

abbrev pub finding : List CapabilityEdge → String → Policy → Derivation → PolicyFinding
finding edges tool p d = record {
  policy = p;
  tool = tool;
  severity = derivation_severity d;
  derivation = d;
  backing = edges_of tool edges;
  caveat = caveat_for d;
}

abbrev pub joined_findings :
    Option (List PolicyFinding) → Option (List PolicyFinding) → Option (List PolicyFinding)
joined_findings (some fs) (some gs) = some (fs ++ gs)
joined_findings _ _ = none

-- The body of the inner loop.
abbrev pub policy_findings :
    List CapabilityEdge → String → List Capability → Policy → Option (List PolicyFinding)
policy_findings edges tool caps p =
    if p.predicate caps
    then elim (weakest edges tool) [ none ↦ none | some d ↦ some (finding edges tool p d ∷ []) ]
    else some []

unfoldable pub tool_findings :
    List CapabilityEdge → String → List Capability → List Policy → Option (List PolicyFinding)
tool_findings edges tool caps [] = some []
tool_findings edges tool caps (p ∷ ps) =
    joined_findings (policy_findings edges tool caps p) (tool_findings edges tool caps ps)

unfoldable pub grouped_findings : List CapabilityEdge → Grouped → Option (List PolicyFinding)
grouped_findings edges [] = some []
grouped_findings edges ((tool, caps) ∷ t) =
    joined_findings (tool_findings edges tool caps policies) (grouped_findings edges t)

-- The findings, or `none` where `min` raises.
unfoldable pub evaluate : List CapabilityEdge → Option (List PolicyFinding)
evaluate edges = grouped_findings edges (capabilities_by_tool edges)
