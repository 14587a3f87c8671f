-- ===== src/Prelude/Equality.antt =====
-- Decidable equality as an interface, and one operator for every type that has an instance.
use Prim.Native.Nat.{ℕ, zero, suc}
use Prim.Native.String.{String}
use mathlib.Core.Path.{◌≡◌, refl, ap}
use mathlib.Core.Logic.{◌↔◌, ◌≢◌}
use mathlib.Core.Bool.{Bool, true, false, ◌&&◌}
use mathlib.Core.List.{List, [], ◌∷◌}
use native.Mathlib.Omega.{arith}
use text.Mathlib.Text.{◌==◌ as str_eq}
use text.Mathlib.TextEquality.{eq_iff}
use agent_perimeter.Prelude.Tests.{nat_beq, nat_beq_iff}

pub record HasEq {ℓ} (A : Type ℓ) : Type ℓ where
  pub equal : A → A → Bool
  pub equal_iff : (a b : A) → (equal a b ≡ true) ↔ (a ≡ b)

infix 50 ◌==◌
abbrev pub ◌==◌ {ℓ} : {A : Type ℓ} ⦃e : HasEq A⦄ → A → A → Bool
◌==◌ ⦃e⦄ = e.equal

instance abbrev pub nat_eq : HasEq ℕ
nat_eq = record { equal = nat_beq; equal_iff = nat_beq_iff }

instance abbrev pub string_eq : HasEq String
string_eq = record { equal = str_eq; equal_iff = eq_iff }

module _ {ℓ} {A : Type ℓ} ⦃e : HasEq A⦄ where
  pub beq_refl : (a : A) → (a == a) ≡ true
  beq_refl a = (e.equal_iff a a).1 refl

  pub beq_ne : (a b : A) → a ≢ b → (a == b) ≡ false
  beq_ne a b h = ground (arith, e.equal_iff a b)

  pub beq_sym : (a b : A) → (a == b) ≡ (b == a)
  beq_sym a b = ground (arith, e.equal_iff a b, e.equal_iff b a)

-- The entry at a place, or the default.
abbrev pub nth {ℓ} : {A : Type ℓ} → A → List A → ℕ → A
nth d [] n = d
nth d (x ∷ xs) zero = x
nth d (x ∷ xs) (suc n) = nth d xs n

-- An enumeration is compared by the places of its members in the list of all of them.
module _ {A : Type 0} (place : A → ℕ) (d : A) (members : List A)
    (found : (a : A) → nth d members (place a) ≡ a) where
  pub by_place_iff : (a b : A) → (nat_beq (place a) (place b) ≡ true) ↔ (a ≡ b)
  by_place_iff a b = (
    λ h. cc (ap (nth d members) ((nat_beq_iff (place a) (place b)).0 h), found a, found b),
    λ h. (nat_beq_iff (place a) (place b)).1 (ap place h),
  )

  abbrev pub by_place : HasEq A
  by_place = record { equal = λ a b. nat_beq (place a) (place b); equal_iff = by_place_iff }

-- Texts as lists of code points.
abbrev pub list_beq {ℓ} : {A : Type ℓ} ⦃e : HasEq A⦄ → List A → List A → Bool
list_beq [] [] = true
list_beq (x ∷ xs) (y ∷ ys) = (x == y) && list_beq xs ys
list_beq _ _ = false

module _ {ℓ} {A : Type ℓ} ⦃e : HasEq A⦄ where
  list_beq→eq : (xs ys : List A) → list_beq xs ys ≡ true → xs ≡ ys
  list_beq→eq [] [] h = refl
  list_beq→eq [] (y ∷ ys) h = cc
  list_beq→eq (x ∷ xs) [] h = cc
  list_beq→eq (x ∷ xs) (y ∷ ys) h = ground (arith, e.equal_iff x y, list_beq→eq xs ys)

  list_beq_refl : (xs : List A) → list_beq xs xs ≡ true
  list_beq_refl [] = refl
  list_beq_refl (x ∷ xs) = ground (arith, e.equal_iff x x, list_beq_refl xs)

  pub list_beq_iff : (xs ys : List A) → (list_beq xs ys ≡ true) ↔ (xs ≡ ys)
  list_beq_iff xs ys = (list_beq→eq xs ys, λ h. rw h (list_beq_refl ys))

instance abbrev pub list_eq {ℓ} : {A : Type ℓ} ⦃e : HasEq A⦄ → HasEq (List A)
list_eq = record { equal = list_beq; equal_iff = list_beq_iff }
