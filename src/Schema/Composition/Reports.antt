-- ===== src/Schema/Composition/Reports.antt =====
-- What is reported of a ref that points outside of the schema.
use mathlib.Core.List.{Memᴰ}
use mathlib.Core.List.Memᴰ
use agent_perimeter.Prelude.{◌≡◌, String, true, false, List, string_eq}
use agent_perimeter.Json.{Value}
use agent_perimeter.Schema.Walk.{Bound}
use agent_perimeter.Schema.Walk.Stops.{Crosses}
use agent_perimeter.Schema.Composition.{
  is_external, is_metadata_address, SchemaIssue, bound_crossed, metadata_ref, external_ref,
  SchemaFinding,
}

-- What a finding for this tool says of the ref: its own text, by the stronger of its two tests, or
-- the bound that the walk over the schema crosses.
pub data Says (tool ref : String) (v : Value) : SchemaIssue → Type 0 where
  metadata : is_metadata_address ref ≡ true → Says tool ref v (metadata_ref ref)
  external :
      is_metadata_address ref ≡ false → is_external ref ≡ true → Says tool ref v (external_ref ref)
  bound : (b : Bound) → Crosses v b → Says tool ref v (bound_crossed b)

pub record Reported (tool ref : String) (v : Value) (findings : List SchemaFinding) : Type 0 where
  pub finding : SchemaFinding
  pub there : Memᴰ finding findings
  pub names_tool : finding.tool ≡ tool
  pub says : Says tool ref v finding.issue
