-- ===== src/Schema/Composition.antt =====
-- `SchemaCompositionCheck.run` of agent_perimeter/checks/revision/schema_composition.py, with its
-- tests of a ref. A finding is what is particular to it; its wording is left out.
pub mod Reports
use agent_perimeter.Prelude.{
  ◌+◌, ◌≡◌, refl, subst, ◌∙◌, String, Bool, true, false, ◌&&◌, ◌||◌, List, [], ◌∷◌, ◌++◌, any,
  contains, leb, ◌==◌, nat_eq, string_eq, eq_iff, if◌then◌else◌, arith, Bool-cases, inl, inr,
  beq_refl,
}
use agent_perimeter.Json.{Value, obj, Fields, field, end, Object}
use agent_perimeter.Json.Print.{Text}
use agent_perimeter.Model.Scope.{codes}
use agent_perimeter.Contracts.{Severity, critical, high}
use agent_perimeter.Discover.Parse.{ToolRecord}
use agent_perimeter.Schema.Walk.{Bound, WalkEnd, collected, exceeded, out_of_fuel, collect_refs}

-- `text.lower()`, as far as the tests below can see it: of the characters beyond ASCII, only two
-- have a lower case with an ASCII letter in it.
abbrev pub lower : Text → Text
lower [] = []
lower (c ∷ cs) =
    let rest = lower cs in
    if leb 0x41 c && leb c 0x5A
    then (c + 32) ∷ rest
    else if c == 0x130
    then 0x69 ∷ 0x307 ∷ rest
    else if c == 0x212A
    then 0x6B ∷ rest
    else c ∷ rest

abbrev pub has_prefix : Text → Text → Bool
has_prefix [] t = true
has_prefix (c ∷ cs) [] = false
has_prefix (c ∷ cs) (d ∷ ds) = (c == d) && has_prefix cs ds

-- `part in text`
abbrev pub has_part : Text → Text → Bool
has_part p [] = has_prefix p []
has_part p (c ∷ cs) = has_prefix p (c ∷ cs) || has_part p cs

abbrev pub metadata_addresses : List String
metadata_addresses = "169.254.169.254" ∷ "metadata.google.internal" ∷ []

abbrev pub external_schemes : List String
external_schemes = "http://" ∷ "https://" ∷ "file://" ∷ "ftp://" ∷ "ws://" ∷ "wss://" ∷ "//" ∷ []

unfoldable pub is_external : String → Bool
is_external ref = any (λ s. has_prefix (codes s) (lower (codes ref))) external_schemes

unfoldable pub is_metadata_address : String → Bool
is_metadata_address ref = any (λ a. has_part (codes a) (lower (codes ref))) metadata_addresses

pub data SchemaIssue : Type 0 where
  bound_crossed : Bound → SchemaIssue
  metadata_ref external_ref : String → SchemaIssue

pub record SchemaFinding : Type 0 where
  pub tool : String
  pub issue : SchemaIssue
  pub cwe : String
  pub severity : Severity

abbrev pub schema_finding : String → SchemaIssue → SchemaFinding
schema_finding tool (bound_crossed b) = record {
  tool = tool;
  issue = bound_crossed b;
  cwe = "CWE-674";
  severity = high;
}
schema_finding tool (metadata_ref ref) = record {
  tool = tool;
  issue = metadata_ref ref;
  cwe = "CWE-918";
  severity = critical;
}
schema_finding tool (external_ref ref) = record {
  tool = tool;
  issue = external_ref ref;
  cwe = "CWE-918";
  severity = high;
}

-- The loop over the refs.
unfoldable pub ref_findings : String → List String → List SchemaFinding
ref_findings tool [] = []
ref_findings tool (ref ∷ refs) =
    let rest = ref_findings tool refs in
    if is_metadata_address ref
    then schema_finding tool (metadata_ref ref) ∷ rest
    else if is_external ref
    then schema_finding tool (external_ref ref) ∷ rest
    else rest

abbrev pub end_findings : String → WalkEnd → List SchemaFinding
end_findings tool (collected refs) = ref_findings tool refs
end_findings tool (exceeded b) = schema_finding tool (bound_crossed b) ∷ []
end_findings tool out_of_fuel = []

-- The schema as the walk's root.
abbrev pub fields_of : Object → Fields
fields_of [] = end
fields_of ((k, v) ∷ es) = field k v (fields_of es)

abbrev pub schema_of : ToolRecord → Value
schema_of tool = obj (fields_of tool.input_schema)

unfoldable pub composition_findings : List ToolRecord → List SchemaFinding
composition_findings [] = []
composition_findings (tool ∷ tools) =
    end_findings tool.name (collect_refs (schema_of tool)) ++ composition_findings tools
