-- ===== src/Graph/Build.antt =====
-- agent_perimeter/graph/build.py: the capability edges that a listing supports. `search pattern text`
-- is the text that `re.compile(pattern, re.I).search(text)` matches, a parameter; `observed_at` is
-- left out.
pub mod Evidence
pub mod Edges
use agent_perimeter.Prelude.{
  ℕ, String, Option, none, some, List, [], ◌∷◌, ◌++◌, Table, lookup, insert, has_key, keys, values,
  is_some, ◌==◌, string_eq, if◌then◌else◌,
}
use agent_perimeter.Json.{Value, Fields, obj, entries, Object, as_object}
use agent_perimeter.Contracts.{
  Derivation, name, description, Capability, fs_read, fs_write, net_out, exec, secret_read, db_read,
  capability_eq,
}
use agent_perimeter.Discover.Parse.{ToolRecord}

abbrev pub Signals : Type 0
Signals = List (String × Capability)

-- `NAME_SIGNALS`
abbrev pub name_signals : Signals
name_signals =
    ("^(path|file|filename|filepath|dir|directory)$", fs_read)
    ∷ ("^(url|uri|endpoint|host|webhook|callback)$", net_out)
    ∷ ("^(command|cmd|script|shell|exec|argv)$", exec)
    ∷ ("^(query|sql|statement)$", db_read)
    ∷ ("(token|secret|api[_-]?key|credential)", secret_read)
    ∷ []

-- `DESCRIPTION_SIGNALS`
abbrev pub description_signals : Signals
description_signals =
    ("\\b(read|open|load)s?\\b.{0,20}\\bfile\\b", fs_read)
    ∷ ("\\b(write|save|store)s?\\b.{0,20}\\b(file|disk)\\b", fs_write)
    ∷ ("\\b(fetch|request|send|post|upload)s?\\b.{0,30}\\b(url|api|endpoint|http)", net_out)
    ∷ ("\\b(run|execute|spawn)s?\\b.{0,20}\\b(command|shell|process)\\b", exec)
    ∷ ("\\b(quer|select)\\w*\\b.{0,20}\\bdatabase\\b", db_read)
    ∷ []

-- "input schema declares a parameter named" or "description says", with what is quoted
pub data Rationale : Type 0 where
  parameter : String → Rationale
  says : String → Rationale

-- What `_claim` sets of a claim; the confidence is in tenths.
pub record EdgeClaim : Type 0 where
  pub value : String × Capability
  pub derivation : Derivation
  pub caveat : Option String
  pub confidence : Option ℕ

pub record CapabilityEdge : Type 0 where
  pub tool : String
  pub capability : Capability
  pub derivation : Derivation
  pub claim : EdgeClaim
  pub rationale : Rationale

-- `_CONFIDENCE.get`
abbrev pub confidence_of : Derivation → Option ℕ
confidence_of name = some 5
confidence_of description = some 4
confidence_of _ = none

-- `_CAVEAT.get`
abbrev pub caveat_of : Derivation → Option String
caveat_of name = some "Inferred from a parameter name match, not schema structure or a probe"
caveat_of description = some "Inferred from prose; not confirmed by probe"
caveat_of _ = none

-- The call of `CapabilityEdge` with that of `_claim`.
abbrev pub edge : String → Capability → Derivation → Rationale → CapabilityEdge
edge tool c d why = record {
  tool = tool;
  capability = c;
  derivation = d;
  claim = record {
    value = (tool, c);
    derivation = d;
    caveat = caveat_of d;
    confidence = confidence_of d;
  };
  rationale = why;
}

abbrev pub Found : Type 0
Found = Table Capability CapabilityEdge

-- The names under "properties", where that is a dict.
abbrev pub parameter_names : Object → List String
parameter_names schema = elim (lookup "properties" schema) [
  | none ↦ []
  | some v ↦ elim (as_object v) [ none ↦ [] | some o ↦ keys o ]
]

-- The body of the loop over the description signals.
abbrev pub add_says : String → Capability → Option String → Found → Found
add_says tool c none found = found
add_says tool c (some text) found = insert c (edge tool c description (says text)) found

module _ (search : String → String → Option String) where
  -- The loop over the name signals, for one parameter.
  unfoldable pub add_name : String → String → Signals → Found → Found
  add_name tool param [] found = found
  add_name tool param ((pattern, c) ∷ signals) found = add_name tool param signals (
      if is_some (search pattern param)
      then insert c (edge tool c name (parameter param)) found
      else found)

  unfoldable pub add_names : String → List String → Found → Found
  add_names tool [] found = found
  add_names tool (param ∷ params) found =
      add_names tool params (add_name tool param name_signals found)

  unfoldable pub add_description : String → String → Signals → Found → Found
  add_description tool prose [] found = found
  add_description tool prose ((pattern, c) ∷ signals) found =
      add_description tool prose signals
        (if has_key c found then found else add_says tool c (search pattern prose) found)

  -- `found` for one tool
  unfoldable pub found_of : ToolRecord → Found
  found_of tool =
      add_description tool.name tool.description description_signals
        (add_names tool.name (parameter_names tool.input_schema) [])

  unfoldable pub build_graph : List ToolRecord → List CapabilityEdge
  build_graph [] = []
  build_graph (tool ∷ tools) = values (found_of tool) ++ build_graph tools
