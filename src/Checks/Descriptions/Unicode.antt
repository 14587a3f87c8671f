-- ===== src/Checks/Descriptions/Unicode.antt =====
-- agent_perimeter/checks/descriptions/unicode_anomaly.py, on texts as code points. A label "U+XXXX" is
-- kept as its code point; the parts of a finding that are the same for all of them are left out.
pub mod Offsets
use agent_perimeter.Prelude.{
  ℕ, ◌+◌, String, Bool, true, false, not, ◌&&◌, ◌||◌, Option, none, some, List, [], ◌∷◌, ◌++◌, any,
  contains, leb, ltb, nat_eq, ◌==◌, if◌then◌else◌, map,
}
use agent_perimeter.Contracts.{Derivation}
use agent_perimeter.Model.Scope.{codes}
use agent_perimeter.Discover.Parse.{ToolRecord}

-- `BIDI_OVERRIDES`, `ZERO_WIDTH` and `TAG_CHARACTERS`
abbrev pub bidi_overrides : ℕ → Bool
bidi_overrides c = (leb 0x202A c && ltb c 0x202F) || (leb 0x2066 c && ltb c 0x206A)

abbrev pub zero_width : ℕ → Bool
zero_width c = contains c (0x200B ∷ 0x200C ∷ 0x200D ∷ 0xFEFF ∷ [])

abbrev pub tag_characters : ℕ → Bool
tag_characters c = leb 0xE0000 c && ltb c 0xE0080

-- The keys of `CONFUSABLE_SKELETON`.
abbrev pub confusable_skeleton : List ℕ
confusable_skeleton =
    0x430 ∷ 0x435 ∷ 0x43E ∷ 0x440 ∷ 0x441 ∷ 0x445 ∷ 0x443 ∷ 0x456 ∷ 0x455 ∷ 0x458 ∷ 0x501 ∷ 0x3B1
    ∷ 0x3BF ∷ 0x3C1 ∷ 0x3C5 ∷ 0x3BD ∷ []

-- A category, an offset and a code point.
abbrev pub Anomaly : Type 0
Anomaly = String × ℕ × ℕ

-- The tests of the loop's body.
unfoldable pub anomaly_category : ℕ → Option String
anomaly_category c =
    if bidi_overrides c
    then some "bidi_override"
    else if zero_width c
    then some "zero_width"
    else if tag_characters c
    then some "tag_character"
    else none

-- The loop, from an offset on.
unfoldable pub scan_from : ℕ → List ℕ → List Anomaly
scan_from offset [] = []
scan_from offset (c ∷ cs) = elim (anomaly_category c) [
  | none ↦ scan_from (offset + 1) cs
  | some category ↦ (category, offset, c) ∷ scan_from (offset + 1) cs
]

unfoldable pub scan_text : String → List Anomaly
scan_text text = scan_from 0 (codes text)

-- `c.isascii() and c.isalpha()`
abbrev pub is_latin : ℕ → Bool
is_latin c = (leb 65 c && leb c 90) || (leb 97 c && leb c 122)

abbrev pub first_confusable : ℕ → List ℕ → Option (ℕ × ℕ)
first_confusable offset [] = none
first_confusable offset (c ∷ cs) =
    if contains c confusable_skeleton then some (offset, c) else first_confusable (offset + 1) cs

-- `_confusable_name`
unfoldable pub confusable_name : String → Option (ℕ × ℕ)
confusable_name name =
    if not (any is_latin (codes name)) then none else first_confusable 0 (codes name)

-- What one finding says: the tool, the derivation (which is the field), and the anomaly.
pub record UnicodeFinding : Type 0 where
  pub tool : String
  pub derivation : Derivation
  pub anomaly : Anomaly

abbrev pub all_in : String → Derivation → List Anomaly → List UnicodeFinding
all_in tool derivation [] = []
all_in tool derivation (anomaly ∷ rest) =
    record { tool = tool; derivation = derivation; anomaly = anomaly } ∷ all_in tool derivation rest

abbrev pub confusable_finding : String → Option (ℕ × ℕ) → List UnicodeFinding
confusable_finding tool none = []
confusable_finding tool (some (offset, c)) =
    record { tool = tool; derivation = Derivation.name; anomaly = ("confusable_name", offset, c) }
    ∷ []

-- `UnicodeAnomalyCheck.run`
unfoldable pub unicode_findings : List ToolRecord → List UnicodeFinding
unicode_findings [] = []
unicode_findings (tool ∷ tools) =
    all_in tool.name Derivation.name (scan_text tool.name)
    ++ all_in tool.name Derivation.description (scan_text tool.description)
    ++ confusable_finding tool.name (confusable_name tool.name)
    ++ unicode_findings tools
