-- ===== src/Drift/Keys/Names.antt =====
-- A positional key is read back to its name and its place.
use agent_perimeter.Prelude.{
  ℕ, ◌≤◌, ◌<◌, ◌≡◌, refl, ◌∙◌, sym, ap, true, false, none, some, [], ◌∷◌, ◌++◌, contains, length,
  ◌==◌, nat_eq, arith, Option-cases, Bool-cases, inl, inr,
}
use agent_perimeter.Drift.Digits.{
  decimal, is_digits, max_int_digits, is_digits-decimal, int_of-decimal, decimal-injective,
  decimal_no_hash,
}
use agent_perimeter.Drift.Keys.{
  Key, hash, key_for, rpartition, plain_part, plain_name, order_part, key_order,
}

-- Text after the last "#" has none.
rpartition_absent : (cs : Key) → contains hash cs ≡ false → rpartition cs ≡ none
unfolding rpartition
rpartition_absent [] h = refl
rpartition_absent (c ∷ cs) h = ground (arith, rpartition_absent cs)

pub rpartition-append :
    (front back : Key)
    → contains hash back ≡ false
    → rpartition (front ++ hash ∷ back) ≡ some (front, back)
unfolding rpartition
rpartition-append [] back h = rw (rpartition_absent back h, rpartition)
rpartition-append (c ∷ front) back h = rw (rpartition-append front back h, rpartition)

-- No name of this form is taken for a numbered copy.
abbrev pub IsPlain : Key → Type 0
IsPlain name = (front back : Key) → rpartition name ≡ some (front, back) → is_digits back ≡ false

pub plain_name_plain : (name : Key) → IsPlain name → plain_name name ≡ name
unfolding plain_name
plain_name_plain name plain = elim (Option-cases (rpartition name)) [
  | inl e ↦ rw (e, plain_part)
  | inr ((front, back), e) ↦ rw (e, plain_part, plain front back e)
]

pub key_order_plain : (name : Key) → IsPlain name → key_order name ≡ some (name, 1)
unfolding key_order
key_order_plain name plain = elim (Option-cases (rpartition name)) [
  | inl e ↦ rw (e, order_part)
  | inr ((front, back), e) ↦ rw (e, order_part, plain front back e)
]

key_for-one : (name : Key) (count : ℕ) → (count == 1) ≡ true → key_for name count ≡ name
unfolding key_for
key_for-one name count one = rw (one, key_for)

key_for-more :
    (name : Key) (count : ℕ)
    → (count == 1) ≡ false
    → key_for name count ≡ name ++ hash ∷ decimal count
unfolding key_for
key_for-more name count more = rw (more, key_for)

pub rpartition-numbered :
    (name : Key) (count : ℕ)
    → rpartition (name ++ hash ∷ decimal count) ≡ some (name, decimal count)
rpartition-numbered name count = rpartition-append name (decimal count) (decimal_no_hash count)

plain_name-numbered : (name : Key) (count : ℕ) → plain_name (name ++ hash ∷ decimal count) ≡ name
unfolding plain_name
plain_name-numbered name count =
    rw (rpartition-numbered name count, plain_part, is_digits-decimal count)

key_order-numbered :
    (name : Key) (count : ℕ)
    → length (decimal count) ≤ max_int_digits
    → key_order (name ++ hash ∷ decimal count) ≡ some (name, count)
unfolding key_order
key_order-numbered name count fits =
    rw (
      rpartition-numbered name count,
      order_part,
      is_digits-decimal count,
      int_of-decimal count fits,
    )

numbered_lem :
    (name front : Key) (count : ℕ) → name ≡ front ++ hash ∷ decimal count → ¬ IsPlain name
numbered_lem name front count e plain = cc (
  plain front (decimal count) (ap rpartition e ∙ rpartition-numbered front count),
  is_digits-decimal count,
)

-- Plain names at counted places have the same key only where name and place are the same.
pub key_for-injective :
    (n m : Key) (c d : ℕ) → IsPlain n → IsPlain m → key_for n c ≡ key_for m d → (n ≡ m) × (c ≡ d)
unfolding key_for
key_for-injective n m c d pn pm e = elim (Bool-cases (c == 1)) [
  | inl c₁ ↦ elim (Bool-cases (d == 1)) [
    | inl d₁ ↦ (sym (key_for-one n c c₁) ∙ e ∙ key_for-one m d d₁, ground arith)
    | inr d₂ ↦ absurd (numbered_lem n m d (sym (key_for-one n c c₁) ∙ e ∙ key_for-more m d d₂) pn)
  ]
  | inr c₂ ↦ elim (Bool-cases (d == 1)) [
    | inl d₁ ↦
        absurd (numbered_lem m n c (sym (key_for-one m d d₁) ∙ sym e ∙ key_for-more n c c₂) pm)
    | inr d₂ ↦
        let same =
          sym (rpartition-numbered n c)
          ∙ ap rpartition (sym (key_for-more n c c₂) ∙ e ∙ key_for-more m d d₂)
          ∙ rpartition-numbered m d in
        (ground arith, decimal-injective c d (ground arith))
  ]
]

-- The key of the copy at each place, from one on, of a name that does not look like a numbered
-- copy leads back to the name, and sorts by the name and then by the place, as long as the printed
-- place is short enough for int.
pub key_for_read :
    (name : Key) (count : ℕ)
    → IsPlain name
    → 0 < count
    → length (decimal count) ≤ max_int_digits
    → (plain_name (key_for name count) ≡ name)
      × (key_order (key_for name count) ≡ some (name, count))
key_for_read name count plain pos fits = elim (Bool-cases (count == 1)) [
  | inl one ↦ rw (key_for-one name count one) (
    plain_name_plain name plain,
    key_order_plain name plain ∙ ap (λ (c : ℕ). some (name, c)) (ground arith),
  )
  | inr more ↦
      rw (key_for-more name count more)
        (plain_name-numbered name count, key_order-numbered name count fits)
]
