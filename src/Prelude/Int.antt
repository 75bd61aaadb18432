-- ===== src/Prelude/Int.antt =====
-- Python's `int`, over the native numbers.
use Prim.Native.Nat.{ℕ, suc, ◌+◌, ◌-◌}
use mathlib.Core.Path.{◌≡◌}
use native.Mathlib.Omega.{arith}
use benzene_python.Prelude.Tests.{ltb, if◌then◌else◌}

pub data ℤ : Type 0 where
  pos : ℕ → ℤ
  -- -(n + 1)
  negsuc : ℕ → ℤ

abbrev pub difference : ℕ → ℕ → ℤ
difference m n = if ltb m n then negsuc (n - m - 1) else pos (m - n)

infixl 60 ◌+ℤ◌
abbrev pub ◌+ℤ◌ : ℤ → ℤ → ℤ
pos m +ℤ pos n = pos (m + n)
pos m +ℤ negsuc n = difference m (suc n)
negsuc m +ℤ pos n = difference n (suc m)
negsuc m +ℤ negsuc n = negsuc (suc (m + n))

pub add_zero : (a : ℤ) → a +ℤ pos 0 ≡ a
add_zero (pos m) = ground arith
add_zero (negsuc m) = ground arith

pub zero_add : (a : ℤ) → pos 0 +ℤ a ≡ a
zero_add (pos m) = ground arith
zero_add (negsuc m) = ground arith

pub add_assoc : (a b c : ℤ) → (a +ℤ b) +ℤ c ≡ a +ℤ (b +ℤ c)
add_assoc (pos l) (pos m) (pos n) = ground arith
add_assoc (pos l) (pos m) (negsuc n) = ground arith
add_assoc (pos l) (negsuc m) (pos n) = ground arith
add_assoc (pos l) (negsuc m) (negsuc n) = ground arith
add_assoc (negsuc l) (pos m) (pos n) = ground arith
add_assoc (negsuc l) (pos m) (negsuc n) = ground arith
add_assoc (negsuc l) (negsuc m) (pos n) = ground arith
add_assoc (negsuc l) (negsuc m) (negsuc n) = ground arith
