-- ===== src/Prelude/Integers.antt =====
-- Integers over the native numbers: `negsuc n` is -(n + 1).
use Prim.Native.Nat.{ℕ, zero, suc, ◌+◌, ◌-◌, ◌*◌, ◌/◌, ◌%◌}
use mathlib.Core.Bool.{Bool, true, false}
use solid_server_rs.Prelude.Tests.{leb, if◌then◌else◌}

pub data ℤ : Type 0 where
  pos negsuc : ℕ → ℤ

abbrev pub negate : ℕ → ℤ
negate zero = pos 0
negate (suc n) = negsuc n

-- a - b
abbrev pub difference : ℕ → ℕ → ℤ
difference a b = if leb b a then pos (a - b) else negsuc (b - a - 1)

infixl 60 ◌+ℤ◌
abbrev pub ◌+ℤ◌ : ℤ → ℤ → ℤ
pos a +ℤ pos b = pos (a + b)
pos a +ℤ negsuc b = difference a (suc b)
negsuc a +ℤ pos b = difference b (suc a)
negsuc a +ℤ negsuc b = negsuc (a + b + 1)

-- multiplication by, division by (towards 0), and the Euclidean remainder of, a positive number
abbrev pub times : ℤ → ℕ → ℤ
times (pos a) k = pos (a * k)
times (negsuc a) k = negate (suc a * k)

abbrev pub quotient : ℤ → ℕ → ℤ
quotient (pos a) k = pos (a / k)
quotient (negsuc a) k = negate (suc a / k)

abbrev pub rem_euclid : ℤ → ℕ → ℕ
rem_euclid (pos a) k = a % k
rem_euclid (negsuc a) k = k - 1 - a % k

abbrev pub negative : ℤ → ℤ
negative (pos a) = negate a
negative (negsuc a) = pos (suc a)

abbrev pub is_at_most : ℤ → ℤ → Bool
is_at_most (pos a) (pos b) = leb a b
is_at_most (pos a) (negsuc b) = false
is_at_most (negsuc a) (pos b) = true
is_at_most (negsuc a) (negsuc b) = leb b a
