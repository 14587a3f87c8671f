-- ===== src/Model/Excerpt.antt =====
-- agent_perimeter/model/finding.py: the excerpt of an item of evidence, as code points. Unicode's table
-- of printable characters is a parameter.
pub mod Bounds
use agent_perimeter.Prelude.{
  ℕ, ◌+◌, ◌-◌, ◌/◌, ◌%◌, Bool, ◌||◌, List, [], ◌∷◌, ◌++◌, length, ltb, ◌==◌, nat_eq, if◌then◌else◌,
  zero, suc,
}
use agent_perimeter.Model.Scope.{codes}

abbrev pub excerpt_max_chars : ℕ
excerpt_max_chars = 2000

abbrev pub truncation_marker : List ℕ
truncation_marker = codes "… [truncated]"

-- `"\n\r\t"`
abbrev pub renderable_whitespace : ℕ → Bool
renderable_whitespace c = (c == 10) || ((c == 13) || (c == 9))

abbrev pub renderable : (ℕ → Bool) → ℕ → Bool
renderable is_printable c = is_printable c || renderable_whitespace c

-- The digit of a number below sixteen.
abbrev pub hex_digit : ℕ → ℕ
hex_digit n = if ltb n 10 then 48 + n else 55 + n

abbrev pub four_digits : ℕ → List ℕ
four_digits c =
    hex_digit ((c / 4096) % 16)
    ∷ hex_digit ((c / 256) % 16)
    ∷ hex_digit ((c / 16) % 16)
    ∷ hex_digit (c % 16)
    ∷ []

-- `f"U+{ord(char):04X}"`: a code point has six digits at most.
unfoldable pub label : ℕ → List ℕ
label c =
    85
    ∷ 43
    ∷ ((if ltb c 1048576 then [] else hex_digit ((c / 1048576) % 16) ∷ [])
        ++ (if ltb c 65536 then [] else hex_digit ((c / 65536) % 16) ∷ [])
        ++ four_digits c)

abbrev pub rendered : (ℕ → Bool) → ℕ → List ℕ
rendered is_printable c = if renderable is_printable c then c ∷ [] else label c

unfoldable pub cleaned : (ℕ → Bool) → List ℕ → List ℕ
cleaned is_printable [] = []
cleaned is_printable (c ∷ value) = rendered is_printable c ++ cleaned is_printable value

-- `value[:n]`
abbrev pub take {ℓ} : {A : Type ℓ} → ℕ → List A → List A
take zero xs = []
take (suc n) [] = []
take (suc n) (x ∷ xs) = x ∷ take n xs

abbrev pub cut : List ℕ → List ℕ
cut text =
    if ltb excerpt_max_chars (length text)
    then take excerpt_max_chars text ++ truncation_marker
    else text

-- `_bounded_and_printable`
unfoldable pub bounded_and_printable : (ℕ → Bool) → List ℕ → List ℕ
bounded_and_printable is_printable value = cut (cleaned is_printable value)
