-- ===== src/Schema/Walk/Small.antt =====
-- A schema that the walk returns from is within the bounds on nodes and dicts.
use agent_perimeter.Prelude.{ℕ, ◌≤◌, string_eq}
use agent_perimeter.Schema.Walk.{max_subschema_count, max_total_nodes, Walk, WalkEnd, collected}

-- The walk returns only from what is within its bounds.
abbrev Fits : ℕ → ℕ → WalkEnd → Type 0
Fits nodes dicts (collected found) = (nodes ≤ max_total_nodes) × (dicts ≤ max_subschema_count)
Fits nodes dicts _ = Unit
