-- ===== src/Drift/Tests.antt =====
-- Listings and keys at which the theorems are applied.
use agent_perimeter.Prelude.{
  ◌≡◌, refl, String, none, some, List, [], ◌∷◌, ◌++◌, IsDistinct, list_eq, nat_eq, arith,
}
use agent_perimeter.Json.Print.{Text, canonical_json, value_text}
use agent_perimeter.Discover.Parse.{ToolRecord}
use agent_perimeter.Model.Scope.{codes}
use agent_perimeter.Model.Snapshot.{ToolSnapshot, from_record, from_tools, sha256_json}
use agent_perimeter.Drift.Digits.{
  decimal, is_digits, int_of, is_digit, decimal_value, read_digits, print_digits,
}
use agent_perimeter.Drift.Keys.{
  Key, key_for, keys_from, positional_keys, rpartition, plain_name, key_order,
}
use agent_perimeter.Drift.Keys.Names.{IsPlain, key_for_read}
use agent_perimeter.Drift.Keys.Distinct.{positional_keys-IsDistinct}
use agent_perimeter.Drift.Compare.{
  description, tool_added, event, compare, keyed_tools, sorted_keys, key_events, side,
}
use agent_perimeter.Drift.Compare.Events.{events_of}
use agent_perimeter.Drift.Compare.Changes.{expected, IsArrangement, compare-expected}

abbrev x : Key
x = codes "x"

abbrev y : Key
y = codes "y"

x-IsPlain : IsPlain x
unfolding rpartition
x-IsPlain front back e = absurd (cc)

y-IsPlain : IsPlain y
unfolding rpartition
y-IsPlain front back e = absurd (cc)

-- The example of the source's own docstring.
keys_of_docstring : positional_keys (x ∷ x ∷ y ∷ []) ≡ x ∷ codes "x#2" ∷ y ∷ []
unfolding positional_keys keys_from key_for decimal print_digits
keys_of_docstring = refl

-- A name that looks like a numbered copy takes the key of the second copy of another.
keys_collide : positional_keys (x ∷ x ∷ codes "x#2" ∷ []) ≡ x ∷ codes "x#2" ∷ codes "x#2" ∷ []
unfolding positional_keys keys_from key_for decimal print_digits
keys_collide = refl

-- "issue#42" is cut, though it is a name that merely contains "#".
plain_name_cuts : plain_name (codes "issue#42") ≡ codes "issue"
unfolding plain_name rpartition is_digits is_digit decimal_value
plain_name_cuts = refl

-- A superscript two is a digit to `isdigit`, and no number to `int`.
key_order_raises : key_order (x ++ 0x23 ∷ 0xB2 ∷ []) ≡ none
unfolding key_order rpartition is_digits int_of is_digit decimal_value read_digits
key_order_raises = refl

positional_keys-IsDistinct_example : IsDistinct (positional_keys (x ∷ x ∷ y ∷ []))
positional_keys-IsDistinct_example =
    positional_keys-IsDistinct (x ∷ x ∷ y ∷ []) (x-IsPlain, (x-IsPlain, (y-IsPlain, tt)))

key_for_read_example : (plain_name (key_for x 10) ≡ x) × (key_order (key_for x 10) ≡ some (x, 10))
unfolding decimal print_digits
key_for_read_example = key_for_read x 10 x-IsPlain (omega arith) (omega arith)

-- The shortest stand-in for a digest.
abbrev digest : Text → Text
digest t = t

abbrev tool : String → String → ToolRecord
tool n d = record { name = n; description = d; input_schema = []; annotations = [] }

abbrev snapshot : List ToolRecord → ToolSnapshot
snapshot tools = from_tools digest "https://mcp.example.test/rpc" 5 none tools

abbrev monday : ToolSnapshot
monday = snapshot (tool "x" "reads" ∷ tool "x" "lists" ∷ [])

abbrev friday : ToolSnapshot
friday = snapshot (tool "x" "reads" ∷ tool "x" "sends" ∷ tool "y" "adds" ∷ [])

abbrev same_order : List Key → List Key
same_order ks = ks

same_order-IsArrangement : IsArrangement same_order
same_order-IsArrangement k ks = refl

compare-expected_example :
    events_of (codes "x#2") (
      event
        (codes "x#2")
        description
        (some (from_record digest (tool "x" "lists")))
        (some (from_record digest (tool "x" "sends")))
        9
      ∷ event y tool_added none (some (from_record digest (tool "y" "adds"))) 9
      ∷ [])
    ≡ expected
        (codes "x#2")
        (some (from_record digest (tool "x" "lists")))
        (some (from_record digest (tool "x" "sends")))
        9
unfolding compare from_tools from_record sha256_json canonical_json keyed_tools positional_keys
    keys_from key_for decimal key_order sorted_keys key_events event side rpartition is_digits
    int_of is_digit decimal_value read_digits print_digits value_text
compare-expected_example =
    compare-expected same_order monday friday 9
      (event (codes "x#2") description (some (from_record digest (tool "x" "lists")))
          (some (from_record digest (tool "x" "sends"))) 9
        ∷ event y tool_added none (some (from_record digest (tool "y" "adds"))) 9
        ∷ [])
      same_order-IsArrangement refl (codes "x#2")
