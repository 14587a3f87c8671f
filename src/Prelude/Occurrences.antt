-- ===== src/Prelude/Occurrences.antt =====
-- How often an entry occurs in a list, which no order of the list changes.
use Prim.Native.Nat.{ℕ, suc}
use mathlib.Core.Path.{◌≡◌, refl, ap, ◌∙◌}
use mathlib.Core.Bool.{Bool, false}
use mathlib.Core.Logic.{inl, inr}
use mathlib.Core.List.{List, [], ◌∷◌, ◌++◌, map}
use native.Mathlib.Omega.{arith}
use agent_perimeter.Prelude.Equality.{HasEq, ◌==◌}
use agent_perimeter.Prelude.Tests.{if◌then◌else◌, Bool-cases}
use agent_perimeter.Prelude.Lists.{contains, contains-append, IsDistinct, filter}
use agent_perimeter.Prelude.Sort.{insert_sorted, sorted}

module _ {ℓ} {A : Type ℓ} ⦃e : HasEq A⦄ where
  abbrev pub occurrences : A → List A → ℕ
  occurrences a [] = 0
  occurrences a (x ∷ xs) = if a == x then suc (occurrences a xs) else occurrences a xs

  occurrences_absent : (a : A) (xs : List A) → contains a xs ≡ false → occurrences a xs ≡ 0
  occurrences_absent a [] h = refl
  occurrences_absent a (x ∷ xs) h = ground (arith, occurrences_absent a xs)

  pub occurrences-distinct :
      (a : A) (xs : List A) → IsDistinct xs → occurrences a xs ≡ (if contains a xs then 1 else 0)
  occurrences-distinct a [] h = refl
  occurrences-distinct a (x ∷ xs) h = elim (Bool-cases (a == x)) [
    | inl same ↦
        let eq = (e.equal_iff a x).0 same in
        rw (same, occurrences, contains)
          (ap suc (ap (λ (y : A). occurrences y xs) eq ∙ occurrences_absent x xs h.0))
    | inr other ↦ rw (other, occurrences, contains) (occurrences-distinct a xs h.1)
  ]

  contains-filter :
      (p : A → Bool) (a : A) (xs : List A)
      → contains a xs ≡ false
      → contains a (filter p xs) ≡ false
  contains-filter p a [] h = refl
  contains-filter p a (x ∷ xs) h = ground (arith, contains-filter p a xs)

  pub IsDistinct-filter : (p : A → Bool) (xs : List A) → IsDistinct xs → IsDistinct (filter p xs)
  IsDistinct-filter p [] h = tt
  IsDistinct-filter p (x ∷ xs) h = elim (Bool-cases (p x)) [
    | inl kept ↦ rw (kept, filter) (contains-filter p x xs h.0, IsDistinct-filter p xs h.1)
    | inr dropped ↦ rw (dropped, filter) (IsDistinct-filter p xs h.1)
  ]

  -- Two lists of which the second has no entry of the first.
  abbrev pub IsApart : List A → List A → Type 0
  IsApart [] ys = Unit
  IsApart (x ∷ xs) ys = (contains x ys ≡ false) × IsApart xs ys

  pub IsDistinct-append :
      (xs ys : List A) → IsDistinct xs → IsDistinct ys → IsApart xs ys → IsDistinct (xs ++ ys)
  IsDistinct-append [] ys left right apart = right
  IsDistinct-append (x ∷ xs) ys left right apart =
      (rw (contains-append x xs ys, left.0) apart.0, IsDistinct-append xs ys left.1 right apart.1)

  -- Sorting keeps how often an entry is shown.
  module _ {κ} {B : Type κ} (le : B → B → Bool) (show : B → A) (a : A) where
    occurrences-insert_sorted :
        (b : B) (bs : List B)
        → occurrences a (map show (insert_sorted le b bs)) ≡ occurrences a (map show (b ∷ bs))
    occurrences-insert_sorted b [] = refl
    occurrences-insert_sorted b (c ∷ bs) = ground (arith, occurrences-insert_sorted b bs)

    pub occurrences-sorted :
        (bs : List B) → occurrences a (map show (sorted le bs)) ≡ occurrences a (map show bs)
    occurrences-sorted [] = refl
    occurrences-sorted (b ∷ bs) =
        ground (arith, occurrences-insert_sorted b (sorted le bs), occurrences-sorted bs)
