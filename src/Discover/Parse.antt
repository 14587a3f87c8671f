-- ===== src/Discover/Parse.antt =====
-- `ToolRecord`, `_parse` and `parse_tools`: the tool entries of one tools/list page.
use agent_perimeter.Prelude.{String, Option, none, some, List, [], ◌∷◌, lookup, get_or, string_eq}
use agent_perimeter.Json.{Value, Object, as_object, get_object, get_list, py_str}

pub record ToolRecord : Type 0 where
  pub name : String
  pub description : String
  pub input_schema : Object
  pub annotations : Object

-- `dict.get("description", "")`, printed by `str`
abbrev pub str_or_empty : (Value → String) → Option Value → String
str_or_empty render none = ""
str_or_empty render (some v) = py_str render v

abbrev pub parse_object : (Value → String) → Object → Option ToolRecord
parse_object render entry = elim (lookup "name" entry) [
  | none ↦ none
  | some name ↦ some (record {
    name = py_str render name;
    description = str_or_empty render (lookup "description" entry);
    input_schema = get_or (get_object "inputSchema" entry) [];
    annotations = get_or (get_object "annotations" entry) [];
  })
]

-- `_parse`
unfoldable pub parse : (Value → String) → Value → Option ToolRecord
parse render entry = elim (as_object entry) [ none ↦ none | some o ↦ parse_object render o ]

-- The well-formed entries of the list, in order.
unfoldable pub parse_entries : (Value → String) → List Value → List ToolRecord
parse_entries render [] = []
parse_entries render (entry ∷ rest) = elim (parse render entry) [
  | none ↦ parse_entries render rest
  | some record_ ↦ record_ ∷ parse_entries render rest
]

unfoldable pub parse_tools : (Value → String) → Object → List ToolRecord
unfolding parse_entries
parse_tools render listing = elim (get_list "tools" listing) [
  | none ↦ []
  | some raw_tools ↦ parse_entries render raw_tools
]
