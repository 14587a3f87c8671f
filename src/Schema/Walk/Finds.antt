-- ===== src/Schema/Walk/Finds.antt =====
-- No ref hides from the walk: where it returns, every `$ref` text of the schema was collected.
use agent_perimeter.Prelude.{
  ◌≡◌, String, Bool, true, false, ◌||◌, Option, none, some, List, [], ◌∷◌, ◌++◌, any, contains,
  string_eq,
}
use agent_perimeter.Json.{Value, obj, arr, Fields, field, end, Items, cons, nil, entries, get_str}
use agent_perimeter.Schema.Walk.{
  Entry, node, ref_closed, Walk, Visit, go, crossed, WalkEnd, collected,
}

abbrev pub own_ref : Option String → List String
own_ref none = []
own_ref (some ref) = ref ∷ []

-- Every `$ref` text of a schema, at any depth.
unfoldable mutual
  pub refs_of : Value → List String
  refs_of (obj fs) = own_ref (get_str "$ref" (entries fs)) ++ field_refs fs
  refs_of (arr vs) = item_refs vs
  refs_of v = []

  pub field_refs : Fields → List String
  field_refs end = []
  field_refs (field k v fs) = refs_of v ++ field_refs fs

  pub item_refs : Items → List String
  item_refs nil = []
  item_refs (cons v vs) = refs_of v ++ item_refs vs

module _ (r : String) where
  abbrev among : List Value → Bool
  among vs = any (λ v. contains r (refs_of v)) vs

  -- The ref is in a node that is still to be visited.
  abbrev pending : List Entry → Bool
  pending [] = false
  pending (node v d ∷ stack) = contains r (refs_of v) || pending stack
  pending (ref_closed ref ∷ stack) = pending stack

  -- The ref is collected, or will be.
  abbrev known : Walk → Bool
  known w = contains r w.found || pending w.stack

  abbrev Keeps : Bool → Visit → Type 0
  Keeps b (crossed _) = Unit
  Keeps b (go w) = b ≡ true → known w ≡ true

  -- A walk that returns has every ref.
  abbrev Returns : Bool → WalkEnd → Type 0
  Returns b (collected found) = b ≡ true → contains r found ≡ true
  Returns b _ = Unit
