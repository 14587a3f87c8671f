-- ===== src/Model/Excerpt/Bounds.antt =====
-- What bounded_and_printable promises of any excerpt.
use agent_perimeter.Prelude.{
  ℕ, ◌+◌, ◌/◌, ◌%◌, ◌≤◌, ◌≡◌, refl, ap, ◌∙◌, Bool, true, ◌&&◌, List, [], ◌∷◌, ◌++◌, length,
  length-append, all, all-append, ltb, leb, nat_eq, arith, Bool-cases, inl, inr, zero, suc,
}
use agent_perimeter.Model.Scope.{codes}
use agent_perimeter.Model.Excerpt.{
  excerpt_max_chars, truncation_marker, renderable, hex_digit, label, rendered, cleaned, take, cut,
  bounded_and_printable,
}

all-take {ℓ} :
    {A : Type ℓ} (p : A → Bool) (n : ℕ) (xs : List A) → all p xs ≡ true → all p (take n xs) ≡ true
all-take p zero xs h = refl
all-take p (suc n) [] h = refl
all-take p (suc n) (x ∷ xs) h =
    let rest = all-take p n xs (ground (arith, h)) in ground (arith, h, rest)

length-take {ℓ} : {A : Type ℓ} (n : ℕ) (xs : List A) → length (take n xs) ≤ n
length-take zero xs = omega arith
length-take (suc n) [] = omega arith
length-take (suc n) (x ∷ xs) = let rest = length-take n xs in omega (arith, rest)

take_front {ℓ} :
    {A : Type ℓ} (n : ℕ) (xs ys : List A) → n ≤ length xs → take n (take n xs ++ ys) ≡ take n xs
take_front zero xs ys h = refl
take_front (suc n) [] ys h = absurd (omega (arith, h))
take_front (suc n) (x ∷ xs) ys h = ap (λ l. x ∷ l) (take_front n xs ys (omega (arith, h)))

take-cut : (text : List ℕ) → take excerpt_max_chars (cut text) ≡ take excerpt_max_chars text
take-cut text = elim (Bool-cases (ltb excerpt_max_chars (length text))) [
  | inl long ↦ rw long (take_front excerpt_max_chars text truncation_marker (ground (arith, long)))
  | inr short ↦ rw short refl
]

length-cut : (text : List ℕ) → length (cut text) ≤ 2013
length-cut text = elim (Bool-cases (ltb excerpt_max_chars (length text))) [
  | inl long ↦
      let parts = length-append (take excerpt_max_chars text) truncation_marker in
      let front = length-take excerpt_max_chars text in rw long (omega (arith, parts, front))
  | inr short ↦ rw short (ground (arith, short))
]

module _ (is_printable : ℕ → Bool) (ascii : (c : ℕ) → 32 ≤ c → c ≤ 126 → is_printable c ≡ true)
    (ellipsis : is_printable 8230 ≡ true) where
  ascii-renderable : (c : ℕ) → 32 ≤ c → c ≤ 126 → renderable is_printable c ≡ true
  ascii-renderable c low high = let e = ascii c low high in ground (arith, e)

  hex_digit-renderable : (n : ℕ) → renderable is_printable (hex_digit (n % 16)) ≡ true
  hex_digit-renderable n = elim (Bool-cases (ltb (n % 16) 10)) [
    | inl small ↦ rw small (ascii-renderable (48 + n % 16) (omega arith) (omega arith))
    | inr large ↦ rw large (ascii-renderable (55 + n % 16) (omega arith) (omega arith))
  ]

  label-renderable : (c : ℕ) → all (renderable is_printable) (label c) ≡ true
  unfolding label
  label-renderable c =
      let start = ascii-renderable 85 (omega arith) (omega arith) in
      let plus_sign = ascii-renderable 43 (omega arith) (omega arith) in
      let sixth = hex_digit-renderable (c / 1048576) in
      let fifth = hex_digit-renderable (c / 65536) in
      let fourth = hex_digit-renderable (c / 4096) in
      let third = hex_digit-renderable (c / 256) in
      let second = hex_digit-renderable (c / 16) in
      let last = hex_digit-renderable c in
      elim (Bool-cases (ltb c 1048576)) [
        | inl a ↦ elim (Bool-cases (ltb c 65536)) [
          | inl b ↦ rw (a, b, start, plus_sign, fourth, third, second, last) refl
          | inr b ↦ rw (a, b, start, plus_sign, fifth, fourth, third, second, last) refl
        ]
        | inr a ↦ elim (Bool-cases (ltb c 65536)) [
          | inl b ↦ rw (a, b, start, plus_sign, sixth, fourth, third, second, last) refl
          | inr b ↦ rw (a, b, start, plus_sign, sixth, fifth, fourth, third, second, last) refl
        ]
      ]

  rendered-renderable : (c : ℕ) → all (renderable is_printable) (rendered is_printable c) ≡ true
  rendered-renderable c = elim (Bool-cases (renderable is_printable c)) [
    | inl shows ↦ simp shows refl
    | inr hidden ↦ rw hidden (label-renderable c)
  ]

  cleaned-renderable :
      (value : List ℕ) → all (renderable is_printable) (cleaned is_printable value) ≡ true
  unfolding cleaned
  cleaned-renderable [] = refl
  cleaned-renderable (c ∷ value) =
      all-append (renderable is_printable) (rendered is_printable c) (cleaned is_printable value)
      ∙ rw (rendered-renderable c, cleaned-renderable value) refl

  all-ascii :
      (text : List ℕ)
      → all (λ c. leb 32 c && leb c 126) text ≡ true
      → all (renderable is_printable) text ≡ true
  all-ascii [] h = refl
  all-ascii (c ∷ text) h =
      let rest = all-ascii text (ground (arith, h)) in
      rw (ascii-renderable c (ground (arith, h)) (ground (arith, h)), rest) refl

  marker-renderable : all (renderable is_printable) truncation_marker ≡ true
  marker-renderable = rw ellipsis (all-ascii (codes " [truncated]") refl)

  cut-renderable :
      (text : List ℕ)
      → all (renderable is_printable) text ≡ true
      → all (renderable is_printable) (cut text) ≡ true
  cut-renderable text h = elim (Bool-cases (ltb excerpt_max_chars (length text))) [
    | inl long ↦ rw long (
        all-append (renderable is_printable) (take excerpt_max_chars text) truncation_marker
        ∙ rw (all-take (renderable is_printable) excerpt_max_chars text h, marker-renderable) refl)
    | inr short ↦ rw short h
  ]

  -- Whatever text an attacker wrote, the excerpt has at most 2013 characters, and each of them is
  -- printable or one of the three characters of white space that render as themselves; and its first
  -- 2000 are those of the cleaned text; provided that the characters of ASCII from the space to the
  -- tilde and the ellipsis are printable.
  pub bounded_and_printable-renderable :
      (value : List ℕ)
      → (length (bounded_and_printable is_printable value) ≤ 2013)
        × (all (renderable is_printable) (bounded_and_printable is_printable value) ≡ true)
        × (take excerpt_max_chars (bounded_and_printable is_printable value)
            ≡ take excerpt_max_chars (cleaned is_printable value))
  unfolding bounded_and_printable
  bounded_and_printable-renderable value = (
    length-cut (cleaned is_printable value),
    cut-renderable (cleaned is_printable value) (cleaned-renderable value),
    take-cut (cleaned is_printable value),
  )
