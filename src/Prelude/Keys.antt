-- ===== src/Prelude/Keys.antt =====
-- The keys of a table.
use mathlib.Core.Path.{◌≡◌, refl}
use mathlib.Core.Bool.{◌||◌}
use mathlib.Core.Logic.{inl, inr}
use mathlib.Core.List.{[], ◌∷◌}
use native.Mathlib.Omega.{arith}
use agent_perimeter.Prelude.Equality.{HasEq, ◌==◌}
use agent_perimeter.Prelude.Tests.{Bool-cases}
use agent_perimeter.Prelude.Lists.{contains, IsDistinct}
use agent_perimeter.Prelude.Tables.{Table, keys, has_key, insert}

module _ {ℓ κ} {K : Type ℓ} ⦃e : HasEq K⦄ {V : Type κ} where
  pub has_key-contains : (k : K) (t : Table K V) → has_key k t ≡ contains k (keys t)
  has_key-contains k [] = refl
  has_key-contains k ((j, v) ∷ t) = ground (arith, has_key-contains k t)

  pub contains-keys-insert :
      (k j : K) (v : V) (t : Table K V)
      → contains j (keys (insert k v t)) ≡ ((j == k) || contains j (keys t))
  contains-keys-insert k j v [] = refl
  contains-keys-insert k j v ((i, w) ∷ t) =
      ground
        (arith, contains-keys-insert k j v t, e.equal_iff k i, e.equal_iff j i, e.equal_iff j k)

  pub IsDistinct-insert :
      (k : K) (v : V) (t : Table K V) → IsDistinct (keys t) → IsDistinct (keys (insert k v t))
  IsDistinct-insert k v [] h = (refl, tt)
  IsDistinct-insert k v ((i, w) ∷ t) h = elim (Bool-cases (k == i)) [
    | inl same ↦ rw (same, insert) h
    | inr other ↦
        rw (other, insert)
          (
            ground (arith, h.0, contains-keys-insert k i v t, e.equal_iff k i, e.equal_iff i k),
            IsDistinct-insert k v t h.1,
          )
  ]
