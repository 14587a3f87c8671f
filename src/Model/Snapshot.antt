-- ===== src/Model/Snapshot.antt =====
-- agent_perimeter/model/snapshot.py. `sha256` is `hashlib.sha256(text.encode()).hexdigest()`, a
-- parameter. `encode` raises on a lone surrogate only, and no String has one; an instant is a number.
use agent_perimeter.Prelude.{ℕ, String, Option, List, map}
use agent_perimeter.Json.{Object}
use agent_perimeter.Json.Print.{Text, canonical_json}
use agent_perimeter.Model.Scope.{codes}
use agent_perimeter.Discover.Parse.{ToolRecord}

pub record SnapshotTool : Type 0 where
  pub name : Text
  pub description : Text
  pub input_schema : Object
  pub annotations : Object
  pub description_hash : Text
  pub schema_hash : Text
  pub annotations_hash : Text

pub record ToolSnapshot : Type 0 where
  pub target : String
  pub taken_at : ℕ
  pub scan_id : Option String
  pub tools : List SnapshotTool

module _ (sha256 : Text → Text) where
  unfoldable pub sha256_json : Object → Text
  sha256_json o = sha256 (canonical_json o)

  unfoldable pub from_record : ToolRecord → SnapshotTool
  from_record r = record {
    name = codes r.name;
    description = codes r.description;
    input_schema = r.input_schema;
    annotations = r.annotations;
    description_hash = sha256 (codes r.description);
    schema_hash = sha256_json r.input_schema;
    annotations_hash = sha256_json r.annotations;
  }

  unfoldable pub from_tools : String → ℕ → Option String → List ToolRecord → ToolSnapshot
  from_tools target taken_at scan_id tools = record {
    target = target;
    taken_at = taken_at;
    scan_id = scan_id;
    tools = map from_record tools;
  }
