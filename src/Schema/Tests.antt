-- ===== src/Schema/Tests.antt =====
-- Schemas at which the theorems on the walk are applied.
use agent_perimeter.Prelude.{pos, ◌≡◌, refl, some, [], ◌∷◌, string_eq}
use agent_perimeter.Json.{Value, str, obj, field, end, null}
use agent_perimeter.Model.Scope.{codes}
use agent_perimeter.Drift.Digits.{is_digit, decimal_value, read_digits}
use agent_perimeter.Discover.Parse.{ToolRecord}
use agent_perimeter.Schema.Pointer.{py_int, walk_segments, resolve_local_pointer}
use agent_perimeter.Schema.Walk.{
  self_reference, exceeded, push_all, take_ref, enter, visit, walk_loop, collect_refs,
}

-- {"$ref": "#/$defs/a", "$defs": {"a": {"$ref": "https://evil.example/x"}}}
abbrev far : Value
far = obj (field "$ref" (str "https://evil.example/x") end)

abbrev shared : Value
shared = obj (field "$ref" (str "#/$defs/a") (field "$defs" (obj (field "a" far end)) end))

-- A ref to the document itself is a cycle.
looped : collect_refs (obj (field "$ref" (str "#") end)) ≡ exceeded self_reference
unfolding collect_refs walk_loop visit enter take_ref push_all resolve_local_pointer
looped = refl

-- No cycle, but the ref is still open while the values beside it are walked.
sibling :
    collect_refs (
      obj (
        field "$ref" (str "#/$defs/a") (
          field "$defs"
            (obj (field "a" null (field "b" (obj (field "$ref" (str "#/$defs/a") end)) end)))
            end)))
    ≡ exceeded self_reference
unfolding collect_refs walk_loop visit enter take_ref push_all resolve_local_pointer walk_segments
sibling = refl

-- Indices are read as Python reads them.
indices : py_int (codes " +1_0") ≡ some (pos 10)
unfolding py_int is_digit decimal_value read_digits
indices = refl

abbrev tool : ToolRecord
tool = record {
  name = "fetch";
  description = "fetches";
  input_schema = ("properties", obj (field "x" far end)) ∷ [];
  annotations = [];
}
