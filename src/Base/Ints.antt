-- ===== src/Base/Ints.antt =====
-- C's `int` where its sign matters: the integers over the native numbers.
use Prim.Native.Nat.{ℕ, ◌-◌}
use mathlib.Core.Path.{◌≡◌}
use mathlib.Core.Bool.{Bool, true, false}
use native.Mathlib.Omega.{arith}
use bitcoin_clib.Base.Tests.{ltb, if◌then◌else◌}

pub data ℤ : Type 0 where
  pos : ℕ → ℤ
  -- `negsuc n` is -(n + 1)
  negsuc : ℕ → ℤ

-- The difference of two numbers.
infix 60 ◌⊖◌
unfoldable pub ◌⊖◌ : ℕ → ℕ → ℤ
m ⊖ n = if ltb m n then negsuc (n - m - 1) else pos (m - n)

-- `x > 0` and `x < 0`
abbrev pub is_gt_zero : ℤ → Bool
is_gt_zero (pos n) = ltb 0 n
is_gt_zero (negsuc n) = false

abbrev pub is_lt_zero : ℤ → Bool
is_lt_zero (pos n) = false
is_lt_zero (negsuc n) = true

pub is_lt_zero-sub : (m n : ℕ) → is_lt_zero (m ⊖ n) ≡ ltb m n
unfolding ◌⊖◌
is_lt_zero-sub m n = ground arith

pub is_gt_zero-sub : (m n : ℕ) → is_gt_zero (m ⊖ n) ≡ ltb n m
unfolding ◌⊖◌
is_gt_zero-sub m n = ground arith
