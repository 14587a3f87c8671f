-- ===== src/Drift/Keys/Distinct.antt =====
-- Keys of plain names are pairwise different, so that no copy of a tool hides another.
use agent_perimeter.Prelude.{
  ℕ, ◌+◌, ◌<◌, ◌≡◌, refl, sym, subst, true, List, [], ◌∷◌, Table, lookup, insert, lookup-insert,
  contains, All, IsDistinct, list_eq, nat_eq, list_beq_iff, beq_refl, get_or, ◌==◌, arith,
  Bool-cases, inl, inr,
}
use agent_perimeter.Drift.Keys.{Key, key_for, keys_from, positional_keys}
use agent_perimeter.Drift.Keys.Names.{IsPlain, key_for-injective}

-- How often a name was seen.
abbrev pub count_of : Key → Table Key ℕ → ℕ
count_of name seen = get_or (lookup name seen) 0

-- The key stands for one of these names, at a later place than those seen.
abbrev Counted : Table Key ℕ → List Key → Key → Type 0
Counted seen names k =
    (name : Key) × (count : ℕ) × (k ≡ key_for name count)
    × (contains name names ≡ true)
    × (count_of name seen < count)

keys_from-Counted :
    (seen : Table Key ℕ) (names : List Key) (k : Key)
    → contains k (keys_from seen names) ≡ true
    → Counted seen names k
unfolding keys_from
keys_from-Counted seen [] k h = absurd (cc)
keys_from-Counted seen (name ∷ names) k h =
    let count = count_of name seen + 1 in
    elim (Bool-cases (k == key_for name count)) [
      | inl same ↦ (
        name,
        count,
        (list_beq_iff k (key_for name count)).0 same,
        rw (beq_refl name) refl,
        omega arith,
      )
      | inr other ↦
          let (n, c, e, m, later) =
            keys_from-Counted (insert name count seen) names k (rw (other, keys_from) at h) in
          (
            n,
            c,
            e,
            ground (arith, m),
            ground (arith, later, lookup-insert name n count seen, list_beq_iff n name),
          )
    ]

All-contains {κ} :
    (P : Key → Type κ) (a : Key) (xs : List Key) → All P xs → contains a xs ≡ true → P a
All-contains P a [] h m = absurd (cc)
All-contains P a (x ∷ xs) h m = elim (Bool-cases (a == x)) [
  | inl e ↦ subst P (sym ((list_beq_iff a x).0 e)) h.0
  | inr e ↦ All-contains P a xs h.1 (rw e at m)
]

keys_from-IsDistinct :
    (seen : Table Key ℕ) (names : List Key) → All IsPlain names → IsDistinct (keys_from seen names)
unfolding keys_from
keys_from-IsDistinct seen [] plain = tt
keys_from-IsDistinct seen (name ∷ names) plain =
    let count = count_of name seen + 1 in
    let seen' = insert name count seen in
    (
      elim (Bool-cases (contains (key_for name count) (keys_from seen' names))) [
        | inl again ↦
            let (n, c, e, m, later) = keys_from-Counted seen' names (key_for name count) again in
            let same =
              key_for-injective name n count c plain.0 (All-contains IsPlain n names plain.1 m) e in
            ground (arith, same, later, lookup-insert name n count seen, list_beq_iff n name)
        | inr new ↦ new
      ],
      keys_from-IsDistinct seen' names plain.1,
    )

-- Where no name looks like a numbered copy, the keys of a listing are pairwise different, however
-- often its names repeat.
pub positional_keys-IsDistinct :
    (names : List Key) → All IsPlain names → IsDistinct (positional_keys names)
unfolding positional_keys
positional_keys-IsDistinct names plain = keys_from-IsDistinct [] names plain
