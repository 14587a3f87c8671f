-- ===== src/Json/Print.antt =====
-- `canonical_json` of agent_perimeter/model/snapshot.py: `json.dumps` with sorted keys, no blanks and
-- Unicode kept. A text is its code points. An entry's value is printed before the entries are sorted.
use agent_perimeter.Prelude.{
  ℕ, suc, ◌+◌, ◌/◌, ◌%◌, pos, negsuc, Bool, true, false, ◌||◌, ◌&&◌, List, [], ◌∷◌, ◌++◌, map,
  sorted, ltb, ◌==◌, nat_eq, if◌then◌else◌,
}
use agent_perimeter.Json.{
  Value, str, int, float, bool, null, obj, arr, Fields, field, end, Items, cons, nil, Object,
}
use agent_perimeter.Model.Scope.{codes}
use agent_perimeter.Drift.Digits.{decimal}

abbrev pub Text : Type 0
Text = List ℕ

-- Python's `<=` on texts
abbrev pub text_leb : Text → Text → Bool
text_leb [] _ = true
text_leb (c ∷ cs) [] = false
text_leb (c ∷ cs) (d ∷ ds) = ltb c d || ((c == d) && text_leb cs ds)

abbrev hex_digit : ℕ → ℕ
hex_digit n = if ltb n 10 then 0x30 + n else 0x57 + n

-- The escape of one character: short for the seven that have one, `\u00XX` for other controls.
abbrev pub escape : ℕ → Text
escape c =
    if c == 0x22
    then 0x5C ∷ 0x22 ∷ []
    else if c == 0x5C
    then 0x5C ∷ 0x5C ∷ []
    else if c == 0x0A
    then 0x5C ∷ 0x6E ∷ []
    else if c == 0x0D
    then 0x5C ∷ 0x72 ∷ []
    else if c == 0x09
    then 0x5C ∷ 0x74 ∷ []
    else if c == 0x08
    then 0x5C ∷ 0x62 ∷ []
    else if c == 0x0C
    then 0x5C ∷ 0x66 ∷ []
    else if ltb c 0x20
    then 0x5C ∷ 0x75 ∷ 0x30 ∷ 0x30 ∷ hex_digit (c / 16) ∷ hex_digit (c % 16) ∷ []
    else c ∷ []

abbrev pub escaped : Text → Text
escaped [] = []
escaped (c ∷ cs) = escape c ++ escaped cs

abbrev pub quoted : Text → Text
quoted cs = 0x22 ∷ escaped cs ++ 0x22 ∷ []

abbrev pub joined : List Text → Text
joined [] = []
joined (t ∷ []) = t
joined (t ∷ ts) = t ++ 0x2C ∷ joined ts

abbrev pub key_leb : Text × Text → Text × Text → Bool
key_leb a b = text_leb a.0 b.0

-- `{"k":v,...}` from the entries' keys and printed values
abbrev pub object_text : List (Text × Text) → Text
object_text es =
    0x7B ∷ joined (map (λ e. quoted e.0 ++ 0x3A ∷ e.1) (sorted key_leb es)) ++ 0x7D ∷ []

unfoldable mutual
  pub value_text : Value → Text
  value_text (str s) = quoted (codes s)
  value_text (int (pos n)) = decimal n
  value_text (int (negsuc n)) = 0x2D ∷ decimal (suc n)
  value_text (float digits) = codes digits
  value_text (bool true) = codes "true"
  value_text (bool false) = codes "false"
  value_text null = codes "null"
  value_text (obj fs) = object_text (field_texts fs)
  value_text (arr vs) = 0x5B ∷ joined (item_texts vs) ++ 0x5D ∷ []

  pub field_texts : Fields → List (Text × Text)
  field_texts end = []
  field_texts (field k v fs) = (codes k, value_text v) ∷ field_texts fs

  pub item_texts : Items → List Text
  item_texts nil = []
  item_texts (cons v vs) = value_text v ∷ item_texts vs

abbrev pub entry_texts : Object → List (Text × Text)
entry_texts [] = []
entry_texts ((k, v) ∷ es) = (codes k, value_text v) ∷ entry_texts es

unfoldable pub canonical_json : Object → Text
canonical_json o = object_text (entry_texts o)
