-- ===== src/Prelude/Int.antt =====
-- Go's signed integers, as integers over the native numbers. `negsuc n` is -(n + 1).
use Prim.Native.Nat.{ℕ, suc, ◌≤◌, ◌+◌}
use mathlib.Core.Path.{◌≡◌}
use mathlib.Core.Bool.{Bool, true, false}
use native.Mathlib.Omega.{arith}
use flutter_pion_bridge.Prelude.Tests.{◌=ℕ◌, ltb}

pub data ℤ : Type 0 where
  pos : ℕ → ℤ
  negsuc : ℕ → ℤ

abbrev pub pos_part : ℤ → ℕ
pos_part (pos n) = n
pos_part (negsuc n) = 0

abbrev pub neg_part : ℤ → ℕ
neg_part (pos n) = 0
neg_part (negsuc n) = suc n

infix 50 ◌≤ℤ◌
abbrev pub ◌≤ℤ◌ : ℤ → ℤ → Type 0
a ≤ℤ b = pos_part a + neg_part b ≤ pos_part b + neg_part a

abbrev pub ltb_ℤ : ℤ → ℤ → Bool
ltb_ℤ a b = ltb (pos_part a + neg_part b) (pos_part b + neg_part a)

infix 50 ◌=ℤ◌
abbrev pub ◌=ℤ◌ : ℤ → ℤ → Bool
pos a =ℤ pos b = a =ℕ b
pos a =ℤ negsuc b = false
negsuc a =ℤ pos b = false
negsuc a =ℤ negsuc b = a =ℕ b

pub =ℤ_refl : (a : ℤ) → (a =ℤ a) ≡ true
=ℤ_refl (pos a) = ground arith
=ℤ_refl (negsuc a) = ground arith

pub =ℤ_eq : (a b : ℤ) → (a =ℤ b) ≡ true → a ≡ b
=ℤ_eq a b h = ground arith
