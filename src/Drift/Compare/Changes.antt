-- ===== src/Drift/Compare/Changes.antt =====
-- The events of `compare`, key by key.
use agent_perimeter.Prelude.{
  ℕ, ◌≡◌, refl, ap, ◌∙◌, Bool, ◌||◌, Option, none, some, List, [], ◌∷◌, ◌++◌, map, Table, keys,
  lookup, is_some, IsDistinct, ◌==◌, string_eq, nat_eq, list_eq, if◌then◌else◌, occurrences,
  occurrences-distinct, arith, Bool-cases, Option-cases, inl, inr,
}
use agent_perimeter.Model.Snapshot.{SnapshotTool, ToolSnapshot}
use agent_perimeter.Drift.Keys.{Key, positional_keys}
use agent_perimeter.Drift.Compare.{
  description, input_schema, annotations, tool_added, tool_removed, DriftEvent, event, events,
  compare, keyed_tools, name_of, union_keys, sorted_keys, each_key, key_events,
}
use agent_perimeter.Drift.Compare.Events.{events_of, repeated, events_of-each_key}
use agent_perimeter.Drift.Compare.Arrange.{
  occurrences-sorted_keys, contains-union_keys, IsDistinct-union_keys, IsDistinct-zipped,
}

-- What is reported of one key: nothing where neither side has it, one addition or removal where
-- one side has it, and each of the three hashes that differs where both have it.
abbrev changed : Bool → DriftEvent → List DriftEvent
changed b e = if b then [] else e ∷ []

abbrev pub expected : Key → Option SnapshotTool → Option SnapshotTool → ℕ → List DriftEvent
expected k none none now = []
expected k none (some new) now = event k tool_added none (some new) now ∷ []
expected k (some old) none now = event k tool_removed (some old) none now ∷ []
expected k (some old) (some new) now =
    changed (old.description_hash == new.description_hash)
      (event k description (some old) (some new) now)
    ++ changed (old.schema_hash == new.schema_hash) (event k input_schema (some old) (some new) now)
    ++ changed (old.annotations_hash == new.annotations_hash)
        (event k annotations (some old) (some new) now)

repeated-expected :
    (k : Key) (old new : Option SnapshotTool) (now : ℕ)
    → repeated (if is_some old || is_some new then 1 else 0) (key_events k old new now)
      ≡ expected k old new now
unfolding key_events
repeated-expected k none none now = refl
repeated-expected k none (some new) now = refl
repeated-expected k (some old) none now = refl
repeated-expected k (some old) (some new) now = ground arith

-- `arrange` goes through every member of a set once.
abbrev pub IsArrangement : (List Key → List Key) → Type 0
IsArrangement arrange = (k : Key) (ks : List Key) → occurrences k (arrange ks) ≡ occurrences k ks

each_event :
    (before after : Table Key SnapshotTool) (now : ℕ) (ks : List Key) (k : Key)
    → IsDistinct (keys before)
    → IsDistinct (keys after)
    → occurrences k ks ≡ occurrences k (union_keys before after)
    → events_of k (each_key before after now ks) ≡ expected k (lookup k before) (lookup k after) now
each_event before after now ks k left right same =
    let once =
      occurrences-distinct k (union_keys before after)
        (IsDistinct-union_keys before after left right) in
    events_of-each_key before after now k ks
    ∙ rw (same, once, contains-union_keys before after k)
        (repeated-expected k (lookup k before) (lookup k after) now)

-- What `compare` returned comes from its loop over the sorted keys.
compare-ran :
    (arrange : List Key → List Key) (baseline current : ToolSnapshot) (now : ℕ)
    (found : List DriftEvent)
    → compare arrange baseline current now ≡ events found
    → (ks : List Key) × (sorted_keys
          (arrange (union_keys (keyed_tools baseline) (keyed_tools current)))
        ≡ some ks)
      × (found ≡ each_key (keyed_tools baseline) (keyed_tools current) now ks)
unfolding compare
compare-ran arrange baseline current now found ran =
    elim (Bool-cases (baseline.target == current.target)) [
      | inl same ↦
          elim (Option-cases
            (sorted_keys (arrange (union_keys (keyed_tools baseline) (keyed_tools current))))) [
              | inl raised ↦ absurd (ground arith)
              | inr (ks, sorts) ↦ (ks, sorts, ground arith)
            ]
      | inr other ↦ absurd (ground arith)
    ]

keyed_tools-IsDistinct : (s : ToolSnapshot) → IsDistinct (keys (keyed_tools s))
unfolding keyed_tools
keyed_tools-IsDistinct s = IsDistinct-zipped [] (positional_keys (map name_of s.tools)) s.tools tt

-- Where `compare` returns, the events that name a key are those that the two sides' tools at this
-- key differ by: none is missing, none is there twice, and there is no other.
pub compare-expected :
    (arrange : List Key → List Key) (baseline current : ToolSnapshot) (now : ℕ)
    (found : List DriftEvent)
    → IsArrangement arrange
    → compare arrange baseline current now ≡ events found
    → (k : Key)
    → events_of k found
      ≡ expected k (lookup k (keyed_tools baseline)) (lookup k (keyed_tools current)) now
compare-expected arrange baseline current now found fair ran k =
    let before = keyed_tools baseline in
    let after = keyed_tools current in
    let (ks, sorts, e) = compare-ran arrange baseline current now found ran in
    ap (events_of k) e
    ∙ each_event before after now ks k (keyed_tools-IsDistinct baseline)
        (keyed_tools-IsDistinct current)
        (occurrences-sorted_keys (arrange (union_keys before after)) ks k sorts
          ∙ fair k (union_keys before after))
