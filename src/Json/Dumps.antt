-- ===== src/Json/Dumps.antt =====
-- `json.dumps(value, default=str)`: one line, a blank behind each comma and colon, and every character
-- beyond the printable ASCII ones escaped. What json.loads gives needs no `default`.
use agent_perimeter.Prelude.{
  ℕ, suc, ◌+◌, ◌-◌, ◌/◌, ◌%◌, pos, negsuc, true, false, ◌&&◌, List, [], ◌∷◌, ◌++◌, ltb, leb, ◌==◌,
  nat_eq, if◌then◌else◌,
}
use agent_perimeter.Json.{
  Value, str, int, float, bool, null, obj, arr, Fields, field, end, Items, cons, nil,
}
use agent_perimeter.Model.Scope.{codes}
use agent_perimeter.Drift.Digits.{decimal}
use agent_perimeter.Json.Print.{Text}

abbrev lower_hex : ℕ → ℕ
lower_hex n = if ltb n 10 then 48 + n else 87 + n

-- `\uXXXX`
abbrev pub unit_escape : ℕ → Text
unit_escape c =
    92
    ∷ 117
    ∷ lower_hex ((c / 4096) % 16)
    ∷ lower_hex ((c / 256) % 16)
    ∷ lower_hex ((c / 16) % 16)
    ∷ lower_hex (c % 16)
    ∷ []

-- One character; beyond U+FFFF as a surrogate pair.
abbrev pub ascii_escape : ℕ → Text
ascii_escape c =
    if c == 34
    then 92 ∷ 34 ∷ []
    else if c == 92
    then 92 ∷ 92 ∷ []
    else if c == 10
    then 92 ∷ 110 ∷ []
    else if c == 13
    then 92 ∷ 114 ∷ []
    else if c == 9
    then 92 ∷ 116 ∷ []
    else if c == 8
    then 92 ∷ 98 ∷ []
    else if c == 12
    then 92 ∷ 102 ∷ []
    else if leb 32 c && leb c 126
    then c ∷ []
    else if ltb c 65536
    then unit_escape c
    else unit_escape (55296 + (c - 65536) / 1024) ++ unit_escape (56320 + (c - 65536) % 1024)

abbrev pub ascii_escaped : Text → Text
ascii_escaped [] = []
ascii_escaped (c ∷ cs) = ascii_escape c ++ ascii_escaped cs

abbrev pub ascii_quoted : Text → Text
ascii_quoted cs = 34 ∷ ascii_escaped cs ++ 34 ∷ []

abbrev pub listed : List Text → Text
listed [] = []
listed (t ∷ []) = t
listed (t ∷ u ∷ ts) = t ++ 44 ∷ 32 ∷ listed (u ∷ ts)

unfoldable mutual
  pub dumps : Value → Text
  dumps (str s) = ascii_quoted (codes s)
  dumps (int (pos n)) = decimal n
  dumps (int (negsuc n)) = 45 ∷ decimal (suc n)
  dumps (float digits) = codes digits
  dumps (bool true) = codes "true"
  dumps (bool false) = codes "false"
  dumps null = codes "null"
  dumps (obj fs) = 123 ∷ listed (dumped_fields fs) ++ 125 ∷ []
  dumps (arr vs) = 91 ∷ listed (dumped_items vs) ++ 93 ∷ []

  pub dumped_fields : Fields → List Text
  dumped_fields end = []
  dumped_fields (field k v fs) = (ascii_quoted (codes k) ++ 58 ∷ 32 ∷ dumps v) ∷ dumped_fields fs

  pub dumped_items : Items → List Text
  dumped_items nil = []
  dumped_items (cons v vs) = dumps v ∷ dumped_items vs
