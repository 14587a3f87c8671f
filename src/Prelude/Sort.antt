-- ===== src/Prelude/Sort.antt =====
-- Python's stable `sorted`, over a Boolean order: insertion from the right keeps equal entries in
-- order. The result is sorted and holds the same entries.
use mathlib.Core.List.{Perm}
use mathlib.Core.List.Perm
use mathlib.Core.Path.{◌≡◌}
use mathlib.Core.Logic.{inl, inr}
use mathlib.Core.Bool.{Bool, true, false}
use mathlib.Core.List.{List, [], ◌∷◌}
use agent_perimeter.Prelude.Tests.{if◌then◌else◌, Bool-cases}
use agent_perimeter.Prelude.Lists.{All}

module _ {ℓ} {A : Type ℓ} (le : A → A → Bool) where
  abbrev pub insert_sorted : A → List A → List A
  insert_sorted a [] = a ∷ []
  insert_sorted a (x ∷ xs) = if le a x then a ∷ x ∷ xs else x ∷ insert_sorted a xs

  abbrev pub sorted : List A → List A
  sorted [] = []
  sorted (x ∷ xs) = insert_sorted x (sorted xs)

  -- Each entry is at most every later one.
  abbrev pub IsSorted : List A → Type ℓ
  IsSorted [] = Unit
  IsSorted (x ∷ xs) = All (λ y. le x y ≡ true) xs × IsSorted xs

  insert_sorted-perm : (a : A) (xs : List A) → Perm (insert_sorted a xs) (a ∷ xs)
  insert_sorted-perm a [] = Perm.refl (a ∷ [])
  insert_sorted-perm a (x ∷ xs) = elim (Bool-cases (le a x)) [
    | inl h ↦ rw (h, insert_sorted) (Perm.refl (a ∷ x ∷ xs))
    | inr h ↦
        rw (h, insert_sorted)
          (Perm.trans (Perm.cons x (insert_sorted-perm a xs)) (Perm.swap a x xs))
  ]

  pub sorted-perm : (xs : List A) → Perm (sorted xs) xs
  sorted-perm [] = Perm.refl []
  sorted-perm (x ∷ xs) =
      Perm.trans (insert_sorted-perm x (sorted xs)) (Perm.cons x (sorted-perm xs))

  insert_sorted-All {κ} :
      (P : A → Type κ) (a : A) (xs : List A) → P a → All P xs → All P (insert_sorted a xs)
  insert_sorted-All P a [] pa h = (pa, tt)
  insert_sorted-All P a (x ∷ xs) pa h = elim (Bool-cases (le a x)) [
    | inl e ↦ rw (e, insert_sorted) (pa, h)
    | inr e ↦ rw (e, insert_sorted) (h.0, insert_sorted-All P a xs pa h.1)
  ]

  pub sorted-All {κ} : (P : A → Type κ) (xs : List A) → All P xs → All P (sorted xs)
  sorted-All P [] h = tt
  sorted-All P (x ∷ xs) h = insert_sorted-All P x (sorted xs) h.0 (sorted-All P xs h.1)

  module _ (le_total : (a b : A) → le a b ≡ false → le b a ≡ true)
      (le_trans : (a b c : A) → le a b ≡ true → le b c ≡ true → le a c ≡ true) where
    below-All :
        (a x : A) (xs : List A)
        → le a x ≡ true
        → All (λ y. le x y ≡ true) xs
        → All (λ y. le a y ≡ true) xs
    below-All a x [] h k = tt
    below-All a x (y ∷ xs) h k = (le_trans a x y h k.0, below-All a x xs h k.1)

    insert_sorted-IsSorted : (a : A) (xs : List A) → IsSorted xs → IsSorted (insert_sorted a xs)
    insert_sorted-IsSorted a [] h = (tt, tt)
    insert_sorted-IsSorted a (x ∷ xs) h = elim (Bool-cases (le a x)) [
      | inl e ↦ rw (e, insert_sorted) ((e, below-All a x xs e h.0), h)
      | inr e ↦
          rw (e, insert_sorted)
            (
              insert_sorted-All (λ y. le x y ≡ true) a xs (le_total a x e) h.0,
              insert_sorted-IsSorted a xs h.1,
            )
    ]

    pub sorted-IsSorted : (xs : List A) → IsSorted (sorted xs)
    sorted-IsSorted [] = tt
    sorted-IsSorted (x ∷ xs) = insert_sorted-IsSorted x (sorted xs) (sorted-IsSorted xs)
