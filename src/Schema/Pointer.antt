-- ===== src/Schema/Pointer.antt =====
-- `_resolve_local_pointer` of agent_perimeter/checks/revision/schema_composition.py, and Python's
-- `int` as it uses it. A pointer is its code points.
use agent_perimeter.Prelude.{
  ℕ, zero, suc, ℤ, pos, negsuc, Bool, true, false, Option, none, some, List, [], ◌∷◌, get_elem?,
  length, leb, ◌==◌, nat_eq, list_eq, if◌then◌else◌,
}
use agent_perimeter.Json.{Value, obj, arr, Fields, field, end, items}
use agent_perimeter.Json.Print.{Text}
use agent_perimeter.Model.Scope.{codes, whitespace}
use agent_perimeter.Drift.Digits.{is_digit, max_int_digits, read_digits}

-- `text.split("/")`
abbrev pub split_slash : Text → List Text
split_slash [] = [] ∷ []
split_slash (c ∷ cs) = elim (split_slash cs) [
  | [] ↦ [] ∷ []
  | t ∷ ts ↦ if c == 0x2F then [] ∷ t ∷ ts else (c ∷ t) ∷ ts
]

-- `text.replace("~" + digit, by)`
abbrev pub replace_tilde : ℕ → ℕ → Text → Text
replace_tilde digit by [] = []
replace_tilde digit by (c ∷ []) = c ∷ []
replace_tilde digit by (c ∷ d ∷ cs) =
    let rest = replace_tilde digit by (d ∷ cs) in
    let after = replace_tilde digit by cs in
    if c == 0x7E then (if d == digit then by ∷ after else c ∷ rest) else c ∷ rest

-- `.replace("~1", "/").replace("~0", "~")`
abbrev pub unescaped : Text → Text
unescaped t = replace_tilde 0x30 0x7E (replace_tilde 0x31 0x2F t)

-- `text.strip()`
abbrev pub lstrip : Text → Text
lstrip [] = []
lstrip (c ∷ cs) = if whitespace c then lstrip cs else c ∷ cs

abbrev pub rstrip : Text → Text
rstrip [] = []
rstrip (c ∷ cs) = elim (rstrip cs) [
  | [] ↦ if whitespace c then [] else c ∷ []
  | d ∷ ds ↦ c ∷ d ∷ ds
]

-- Digits with single underscores between them, without these.
abbrev pub digit_run : Bool → Text → Option Text
digit_run after_digit [] = if after_digit then some [] else none
digit_run after_digit (c ∷ cs) =
    let digits = digit_run true cs in
    let gap = digit_run false cs in
    if is_digit c
    then elim digits [ none ↦ none | some ds ↦ some (c ∷ ds) ]
    else if c == 0x5F
    then (if after_digit then gap else none)
    else none

abbrev pub unsigned : Text → Option ℕ
unsigned t = elim (digit_run false t) [
  | none ↦ none
  | some ds ↦ if leb (length ds) max_int_digits then read_digits 0 ds else none
]

abbrev pub signed : Text → Option ℤ
signed [] = none
signed (c ∷ cs) =
    if c == 0x2D
    then elim (unsigned cs) [
      | none ↦ none
      | some n ↦ some (elim n [ zero ↦ pos 0 | suc m ↦ negsuc m ])
    ]
    else elim (unsigned (if c == 0x2B then cs else c ∷ cs)) [ none ↦ none | some n ↦ some (pos n) ]

-- `int(text)`, `none` where it raises ValueError
unfoldable pub py_int : Text → Option ℤ
py_int t = signed (lstrip (rstrip t))

-- `current[segment]` in a dict
abbrev pub member : Text → Fields → Option Value
member seg end = none
member seg (field k v fs) = if seg == codes k then some v else member seg fs

abbrev pub element : Option ℤ → List Value → Option Value
element none vs = none
element (some (negsuc n)) vs = none
element (some (pos n)) vs = get_elem? vs n

-- One round of the loop over the segments.
abbrev pub descend : Text → Value → Option Value
descend seg (obj fs) = member seg fs
descend seg (arr vs) = element (py_int seg) (items vs)
descend seg _ = none

unfoldable pub walk_segments : List Text → Value → Option Value
walk_segments [] current = some current
walk_segments (seg ∷ segs) current = elim (descend (unescaped seg) current) [
  | none ↦ none
  | some next ↦ walk_segments segs next
]

-- The pointer after "#", without one leading "/".
abbrev pub without_slash : Text → Text
without_slash [] = []
without_slash (c ∷ cs) = if c == 0x2F then cs else c ∷ cs

abbrev pub resolve_text : Value → Text → Option Value
resolve_text root [] = some root
resolve_text root (c ∷ cs) = walk_segments (split_slash (c ∷ cs)) root

-- `ref[1:]`
abbrev pub rest_of : Text → Text
rest_of [] = []
rest_of (c ∷ cs) = cs

unfoldable pub resolve_local_pointer : Value → Text → Option Value
resolve_local_pointer root ref = resolve_text root (without_slash (rest_of ref))
