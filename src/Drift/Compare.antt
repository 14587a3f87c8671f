-- ===== src/Drift/Compare.antt =====
-- agent_perimeter/model/drift.py, and `compare` with its helpers of agent_perimeter/drift/compare.py.
-- `arrange` is the order in which Python goes through the set of keys; an instant is a number.
pub mod Events
pub mod Arrange
pub mod Changes
use agent_perimeter.Prelude.{
  ℕ, String, Bool, true, false, not, ◌&&◌, ◌||◌, Option, none, some, List, [], ◌∷◌, ◌++◌, map,
  filter, Table, lookup, insert, has_key, keys, sorted, leb, ◌==◌, nat_eq, string_eq, list_eq,
  if◌then◌else◌,
}
use agent_perimeter.Json.Print.{Text, text_leb, canonical_json}
use agent_perimeter.Contracts.{Severity, high, medium, low}
use agent_perimeter.Discover.Parse.{ToolRecord}
use agent_perimeter.Model.Snapshot.{SnapshotTool, ToolSnapshot, from_tools}
use agent_perimeter.Drift.Keys.{Key, key_order, positional_keys}

pub data DriftField : Type 0 where
  description input_schema annotations tool_added tool_removed : DriftField

-- `DRIFT_SEVERITY`
abbrev pub drift_severity : DriftField → Severity
drift_severity description = high
drift_severity tool_added = high
drift_severity input_schema = medium
drift_severity annotations = medium
drift_severity tool_removed = low

pub record DriftEvent : Type 0 where
  pub tool_name : Key
  pub field : DriftField
  pub old_hash : Option Text
  pub new_hash : Option Text
  pub old_value : Option Text
  pub new_value : Option Text
  pub severity : Severity
  pub detected_at : ℕ

abbrev pub name_of : SnapshotTool → Key
name_of t = t.name

-- `dict(zip(keys, tools))`, from the entries in the table on
abbrev pub zipped : Table Key SnapshotTool → List Key → List SnapshotTool → Table Key SnapshotTool
zipped t (k ∷ ks) (tool ∷ tools) = zipped (insert k tool t) ks tools
zipped t _ _ = t

unfoldable pub keyed_tools : ToolSnapshot → Table Key SnapshotTool
keyed_tools snapshot = zipped [] (positional_keys (map name_of snapshot.tools)) snapshot.tools

-- `_side`: the hash and the value for one side of an event
unfoldable pub side : DriftField → Option SnapshotTool → Option Text × Option Text
side f none = (none, none)
side input_schema (some t) = (some t.schema_hash, some (canonical_json t.input_schema))
side annotations (some t) = (some t.annotations_hash, some (canonical_json t.annotations))
side f (some t) = (some t.description_hash, some t.description)

-- `_event`
unfoldable pub event : Key → DriftField → Option SnapshotTool → Option SnapshotTool → ℕ → DriftEvent
event key f old new now = record {
  tool_name = key;
  field = f;
  old_hash = (side f old).0;
  new_hash = (side f new).0;
  old_value = (side f old).1;
  new_value = (side f new).1;
  severity = drift_severity f;
  detected_at = now;
}

-- `_PER_TOOL_FIELDS`, with the attribute that is compared for each
abbrev pub per_tool_fields : List (DriftField × (SnapshotTool → Text))
per_tool_fields =
    (description, λ t. t.description_hash)
    ∷ (input_schema, λ t. t.schema_hash)
    ∷ (annotations, λ t. t.annotations_hash)
    ∷ []

-- The loop over the fields, for a tool that is on both sides.
abbrev pub field_events :
    Key
    → SnapshotTool
    → SnapshotTool
    → ℕ
    → List (DriftField × (SnapshotTool → Text))
    → List DriftEvent
field_events key old new now [] = []
field_events key old new now ((f, attr) ∷ fields) =
    let rest = field_events key old new now fields in
    if not (attr old == attr new) then event key f (some old) (some new) now ∷ rest else rest

-- The body of the loop over the keys.
unfoldable pub key_events : Key → Option SnapshotTool → Option SnapshotTool → ℕ → List DriftEvent
key_events key none new now = event key tool_added none new now ∷ []
key_events key (some old) none now = event key tool_removed (some old) none now ∷ []
key_events key (some old) (some new) now = field_events key old new now per_tool_fields

abbrev pub each_key :
    Table Key SnapshotTool → Table Key SnapshotTool → ℕ → List Key → List DriftEvent
each_key before after now [] = []
each_key before after now (key ∷ ks) =
    key_events key (lookup key before) (lookup key after) now ++ each_key before after now ks

-- The sort keys of all keys: none where one raises.
abbrev pub decorated : List Key → Option (List ((Key × ℕ) × Key))
decorated [] = some []
decorated (key ∷ ks) = elim (key_order key) [
  | none ↦ none
  | some order ↦ elim (decorated ks) [ none ↦ none | some ds ↦ some ((order, key) ∷ ds) ]
]

-- Python's `<=` on the pairs of a name and a place
abbrev pub order_leb : (Key × ℕ) × Key → (Key × ℕ) × Key → Bool
order_leb ((n, i), _) ((m, j), _) = if n == m then leb i j else text_leb n m

abbrev pub snd : (Key × ℕ) × Key → Key
snd d = d.1

-- `sorted(keys, key=key_order)`
unfoldable pub sorted_keys : List Key → Option (List Key)
sorted_keys ks = elim (decorated ks) [
  | none ↦ none
  | some ds ↦ some (map snd (sorted order_leb ds))
]

-- The members of `before.keys() | after.keys()`.
abbrev pub union_keys : Table Key SnapshotTool → Table Key SnapshotTool → List Key
union_keys before after = keys before ++ filter (λ k. not (has_key k before)) (keys after)

-- What `compare` does: return its events, or raise a ValueError, of its own or from `int`.
pub data Outcome : Type 0 where
  events : List DriftEvent → Outcome
  other_target : Outcome
  not_an_int : Outcome

module _ (arrange : List Key → List Key) where
  unfoldable pub compare : ToolSnapshot → ToolSnapshot → ℕ → Outcome
  compare baseline current now =
      let before = keyed_tools baseline in
      let after = keyed_tools current in
      if not (baseline.target == current.target)
      then other_target
      else elim (sorted_keys (arrange (union_keys before after))) [
        | none ↦ not_an_int
        | some ks ↦ events (each_key before after now ks)
      ]

  unfoldable pub compare_tools :
      (Text → Text) → ToolSnapshot → String → List ToolRecord → ℕ → Outcome
  compare_tools sha256 baseline target tools now =
      compare baseline (from_tools sha256 target now none tools) now
