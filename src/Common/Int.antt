-- ===== src/Common/Int.antt =====
-- Go's signed integers, where the program stores -1, over the native numbers.
use Prim.Native.Nat.{ℕ}
use mathlib.Core.Path.{◌≡◌}
use mathlib.Core.Logic.{◌↔◌}
use mathlib.Core.Bool.{Bool, true, false}
use native.Mathlib.Omega.{arith}
use porch.Common.Tests.{◌==◌, ltb}

-- `negsuc n` is -(n + 1).
pub data ℤ : Type 0 where
  pos : ℕ → ℤ
  negsuc : ℕ → ℤ

abbrev pub ℤ_eq : ℤ → ℤ → Bool
ℤ_eq (pos a) (pos b) = a == b
ℤ_eq (negsuc a) (negsuc b) = a == b
ℤ_eq _ _ = false

-- a < b
abbrev pub ℤ_lt : ℤ → ℤ → Bool
ℤ_lt (pos a) (pos b) = ltb a b
ℤ_lt (pos a) (negsuc b) = false
ℤ_lt (negsuc a) (pos b) = true
ℤ_lt (negsuc a) (negsuc b) = ltb b a

pub ℤ_eq_iff : (a b : ℤ) → (ℤ_eq a b ≡ true) ↔ (a ≡ b)
ℤ_eq_iff (pos a) (pos b) = ground arith
ℤ_eq_iff (pos a) (negsuc b) = ground arith
ℤ_eq_iff (negsuc a) (pos b) = ground arith
ℤ_eq_iff (negsuc a) (negsuc b) = ground arith

-- What is not below `a` is not below a greater number either.
pub ℤ_lt_trans : (a b c : ℤ) → ℤ_lt a b ≡ true → ℤ_lt a c ≡ false → ℤ_lt b c ≡ false
ℤ_lt_trans (pos a) (pos b) (pos c) p q = ground arith
ℤ_lt_trans (pos a) (pos b) (negsuc c) p q = ground arith
ℤ_lt_trans (pos a) (negsuc b) (pos c) p q = ground arith
ℤ_lt_trans (pos a) (negsuc b) (negsuc c) p q = ground arith
ℤ_lt_trans (negsuc a) (pos b) (pos c) p q = ground arith
ℤ_lt_trans (negsuc a) (pos b) (negsuc c) p q = ground arith
ℤ_lt_trans (negsuc a) (negsuc b) (pos c) p q = ground arith
ℤ_lt_trans (negsuc a) (negsuc b) (negsuc c) p q = ground arith

pub ℤ_lt_irrefl : (a : ℤ) → ℤ_lt a a ≡ false
ℤ_lt_irrefl (pos a) = ground arith
ℤ_lt_irrefl (negsuc a) = ground arith
