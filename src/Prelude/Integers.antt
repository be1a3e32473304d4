-- ===== src/Prelude/Integers.antt =====
-- Go's `int`, 64 bits wide: the integers over the native numbers, whose sums wrap around.
use Prim.Native.Nat.{ℕ, suc, ◌+◌, ◌-◌, ◌^◌, ◌%◌, ◌<◌}
use mathlib.Core.Path.{◌≡◌}
use mathlib.Core.Bool.{Bool, true, false, not}
use native.Mathlib.Omega.{arith}
use kubernetes_ingress.Prelude.Tests.{ltb, leb, if◌then◌else◌}

pub data ℤ : Type 0 where
  pos negsuc : ℕ → ℤ

infixl 65 ◌+ℤ◌
unfoldable pub ◌+ℤ◌ : ℤ → ℤ → ℤ
pos m +ℤ pos n = pos (m + n)
pos m +ℤ negsuc n = if leb (suc n) m then pos (m - suc n) else negsuc (n - m)
negsuc m +ℤ pos n = if leb (suc m) n then pos (n - suc m) else negsuc (m - n)
negsuc m +ℤ negsuc n = negsuc (suc (m + n))

-- `<=` and `<`
unfoldable pub leq : ℤ → ℤ → Bool
leq (pos m) (pos n) = leb m n
leq (pos m) (negsuc n) = false
leq (negsuc m) (pos n) = true
leq (negsuc m) (negsuc n) = leb n m

unfoldable pub less : ℤ → ℤ → Bool
unfolding leq
less m n = not (leq n m)

-- The value of 64 bits read as a signed number.
signed : ℕ → ℤ
signed n = if ltb n (2 ^ 63) then pos n else negsuc (2 ^ 64 - 1 - n)

unfoldable pub int_of : ℤ → ℤ
unfolding signed
int_of (pos n) = signed (n % 2 ^ 64)
int_of (negsuc n) = signed (2 ^ 64 - 1 - n % 2 ^ 64)

-- A sum that fits does not wrap.
pub int_of-pos : (n : ℕ) → n < 2 ^ 63 → int_of (pos n) ≡ pos n
unfolding int_of signed
int_of-pos n h = ground arith
