-- ===== src/Prelude/Int.antt =====
-- Integers over the native numbers, as far as JSON values and error codes need them.
use Prim.Native.Nat.{ℕ}
use mathlib.Core.Path.{◌≡◌}
use mathlib.Core.Logic.{◌↔◌}
use mathlib.Core.Bool.{Bool, true, false}
use native.Mathlib.Omega.{arith}
use agent_perimeter.Prelude.Tests.{nat_beq}
use agent_perimeter.Prelude.Equality.{HasEq}

-- `negsuc n` is -(n + 1).
pub data ℤ : Type 0 where
  pos : ℕ → ℤ
  negsuc : ℕ → ℤ

abbrev pub int_beq : ℤ → ℤ → Bool
int_beq (pos a) (pos b) = nat_beq a b
int_beq (negsuc a) (negsuc b) = nat_beq a b
int_beq _ _ = false

pub int_beq_iff : (a b : ℤ) → (int_beq a b ≡ true) ↔ (a ≡ b)
int_beq_iff (pos a) (pos b) = ground arith
int_beq_iff _ _ = ground arith

instance abbrev pub int_eq : HasEq ℤ
int_eq = record { equal = int_beq; equal_iff = int_beq_iff }
