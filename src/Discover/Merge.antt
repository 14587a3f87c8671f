-- ===== src/Discover/Merge.antt =====
-- `merge_page`: one page folded into the records listed so far.
pub mod Slots
pub mod Names
use agent_perimeter.Prelude.{
  ℕ, String, Option, none, some, List, [], ◌∷◌, ◌++◌, Table, lookup, insert, has_key, length, set,
  if◌then◌else◌, string_eq,
}
use agent_perimeter.Discover.Parse.{ToolRecord}

-- `records` and `index`, which the function changes in place
pub record Merged : Type 0 where
  pub records : List ToolRecord
  -- name to the slot of its first record
  pub index : Table String ℕ

abbrev pub nothing_merged : Merged
nothing_merged = record { records = []; index = [] }

-- `index.setdefault(name, slot)`
abbrev pub set_default : String → ℕ → Table String ℕ → Table String ℕ
set_default name slot index = if has_key name index then index else insert name slot index

unfoldable pub merge_record : Table String ℕ → ToolRecord → Merged → Merged
merge_record earlier r m = elim (lookup r.name earlier) [
  | some slot ↦ record m { records = set m.records slot r }
  | none ↦ record {
    records = m.records ++ r ∷ [];
    index = set_default r.name (length m.records) m.index;
  }
]

unfoldable pub merge_records : Table String ℕ → List ToolRecord → Merged → Merged
merge_records earlier [] m = m
merge_records earlier (r ∷ page) m = merge_records earlier page (merge_record earlier r m)

-- `earlier = dict(index)`: the names that earlier pages listed
unfoldable pub merge_page : List ToolRecord → Merged → Merged
merge_page page m = merge_records m.index page m
