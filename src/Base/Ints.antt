-- ===== src/Base/Ints.antt =====
-- Go's signed integers where they stay far from their bounds: the integers, with a test for order.
use Prim.Native.Nat.{ℕ}
use sprut.Base.Tests.{ltb}
use mathlib.Core.Bool.{Bool, true, false}

pub data ℤ : Type 0 where
  pos : ℕ → ℤ
  negsuc : ℕ → ℤ

infix 50 ◌<ℤ◌
abbrev pub ◌<ℤ◌ : ℤ → ℤ → Bool
pos m <ℤ pos n = ltb m n
pos m <ℤ negsuc n = false
negsuc m <ℤ pos n = true
negsuc m <ℤ negsuc n = ltb n m
