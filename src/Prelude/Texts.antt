-- ===== src/Prelude/Texts.antt =====
-- Python's operations on texts.
use Prim.Native.Nat.{ℕ, zero, suc, ◌-◌}
use Prim.Native.Char.{Char, code}
use Prim.Native.String.{String}
use mathlib.Core.Bool.{Bool, true, false, ◌&&◌, ◌||◌}
use mathlib.Core.List.{List, [], ◌∷◌}
use agent_perimeter.Prelude.Tests.{nat_beq}
use agent_perimeter.Prelude.Lists.{length}

-- `s + t`
abbrev pub plus : String → String → String
plus String.[] t = t
plus (String.◌∷◌ c s) t = String.◌∷◌ c (plus s t)

-- `len(s)`
abbrev pub size : String → ℕ
size String.[] = 0
size (String.◌∷◌ c s) = suc (size s)

-- `s[:n]`
abbrev pub first_chars : ℕ → String → String
first_chars zero s = String.[]
first_chars (suc n) String.[] = String.[]
first_chars (suc n) (String.◌∷◌ c s) = String.◌∷◌ c (first_chars n s)

-- `s` without its first n characters
abbrev pub without_chars : ℕ → String → String
without_chars zero s = s
without_chars (suc n) String.[] = String.[]
without_chars (suc n) (String.◌∷◌ c s) = without_chars n s

-- `s[-n:]` for a positive n
abbrev pub last_chars : ℕ → String → String
last_chars n s = without_chars (size s - n) s

-- `s.startswith(t)`
abbrev pub starts_with : String → String → Bool
starts_with String.[] s = true
starts_with (String.◌∷◌ c t) String.[] = false
starts_with (String.◌∷◌ c t) (String.◌∷◌ d s) = nat_beq (code c) (code d) && starts_with t s

-- `t in s`
unfoldable pub has_text : String → String → Bool
has_text t String.[] = starts_with t String.[]
has_text t (String.◌∷◌ c s) = starts_with t (String.◌∷◌ c s) || has_text t s

abbrev pub grow_first : Char → List String → List String
grow_first c [] = String.◌∷◌ c String.[] ∷ []
grow_first c (piece ∷ pieces) = String.◌∷◌ c piece ∷ pieces

-- The pieces between the places where t stands, with the characters of t that are still to skip.
unfoldable pub pieces_from : ℕ → String → String → List String
pieces_from skip t String.[] = "" ∷ []
pieces_from (suc skip) t (String.◌∷◌ c s) = pieces_from skip t s
pieces_from zero t (String.◌∷◌ c s) = elim (starts_with t (String.◌∷◌ c s)) [
  | true ↦ "" ∷ pieces_from (size t - 1) t s
  | false ↦ grow_first c (pieces_from zero t s)
]

-- `s.split(t)`, where t is not empty
abbrev pub split_at : String → String → List String
split_at t s = pieces_from 0 t s

-- `t.join(pieces)`
abbrev pub join_with : String → List String → String
join_with t [] = ""
join_with t (piece ∷ []) = piece
join_with t (piece ∷ next ∷ pieces) = plus piece (plus t (join_with t (next ∷ pieces)))

-- `s.count(t)`, where t is not empty
abbrev pub count_text : String → String → ℕ
count_text t s = length (split_at t s) - 1

-- `s.replace(t, "")`, where t is not empty
abbrev pub drop_text : String → String → String
drop_text t s = join_with "" (split_at t s)
