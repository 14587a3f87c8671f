-- ===== src/Prelude/Tables.antt =====
-- A Python dict: entries in insertion order, looked up by the first key that is equal.
use mathlib.Core.Path.{◌≡◌, refl}
use mathlib.Core.Bool.{Bool, true, false}
use mathlib.Core.List.{List, [], ◌∷◌}
use mathlib.Core.Option.{Option, none, some}
use native.Mathlib.Omega.{arith}
use agent_perimeter.Prelude.Equality.{HasEq, ◌==◌}
use agent_perimeter.Prelude.Tests.{if◌then◌else◌}

abbrev pub Table {ℓ κ} : Type ℓ → Type κ → Type (ℓ ⊔ κ)
Table K V = List (K × V)

module _ {ℓ κ} {K : Type ℓ} {V : Type κ} where
  abbrev pub keys : Table K V → List K
  keys [] = []
  keys ((k, v) ∷ t) = k ∷ keys t

  abbrev pub values : Table K V → List V
  values [] = []
  values ((k, v) ∷ t) = v ∷ values t

abbrev pub is_some {ℓ} : {A : Type ℓ} → Option A → Bool
is_some none = false
is_some (some _) = true

module _ {ℓ κ} {K : Type ℓ} ⦃e : HasEq K⦄ {V : Type κ} where
  -- `t.get(k)`
  abbrev pub lookup : K → Table K V → Option V
  lookup k [] = none
  lookup k ((j, v) ∷ t) = if k == j then some v else lookup k t

  -- `t[k] = v`: the entry keeps its place
  abbrev pub insert : K → V → Table K V → Table K V
  insert k v [] = (k, v) ∷ []
  insert k v ((j, w) ∷ t) = if k == j then (j, v) ∷ t else (j, w) ∷ insert k v t

  -- `k in t`
  abbrev pub has_key : K → Table K V → Bool
  has_key k t = is_some (lookup k t)

  pub lookup-insert :
      (k j : K) (v : V) (t : Table K V)
      → lookup j (insert k v t) ≡ (if j == k then some v else lookup j t)
  lookup-insert k j v [] = refl
  lookup-insert k j v ((i, w) ∷ t) =
      ground (arith, e.equal_iff k i, e.equal_iff j i, e.equal_iff j k, lookup-insert k j v t)
