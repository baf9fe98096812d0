-- ===== src/Base/Int.antt =====
-- Signed integers over the native numbers, and the signed fields of Python's `struct`.
use Prim.Native.Nat.{ℕ, ◌-◌, ◌*◌, ◌<◌}
use mathlib.Core.Path.{◌≡◌}
use native.Mathlib.Omega.{arith}
use edu_glasses_host.Base.Tests.{ltb, if◌then◌else◌}

-- `negsuc n` is -(n + 1).
pub data ℤ : Type 0 where
  pos : ℕ → ℤ
  negsuc : ℕ → ℤ

-- The number that an unsigned field of value `v` is as a signed one, of numbers below `2 * half`.
unfoldable pub signed : ℕ → ℕ → ℤ
signed half v = if ltb v half then pos v else negsuc (2 * half - 1 - v)

-- The two's complement.
abbrev pub unsigned : ℕ → ℤ → ℕ
unsigned half (pos n) = n
unsigned half (negsuc n) = 2 * half - 1 - n

abbrev pub Fits : ℕ → ℤ → Type 0
Fits half (pos n) = n < half
Fits half (negsuc n) = n < half

pub signed-unsigned : (half : ℕ) (z : ℤ) → Fits half z → signed half (unsigned half z) ≡ z
unfolding signed
signed-unsigned half (pos n) h = ground arith
signed-unsigned half (negsuc n) h = ground arith

pub unsigned-lt : (half : ℕ) (z : ℤ) → Fits half z → unsigned half z < 2 * half
unsigned-lt half (pos n) h = omega arith
unsigned-lt half (negsuc n) h = omega arith
