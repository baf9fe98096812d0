-- ===== src/Base/Bits.antt =====
-- Laws of the native bit operations at variables: bounds, masks and disjoint fields.
-- Each goes by the lowest binary digit; the native operations stand for a recursion on digits.
use Prim.Native.Nat.{
  ℕ, zero, suc, ◌+◌, ◌-◌, ◌*◌, ◌/◌, ◌%◌, ◌^◌, ◌≤◌, ◌<◌, min, max, bit_and, bit_or, bit_xor, digits,
  differ, bit_and-bitwise, bit_or-bitwise, bit_xor-bitwise,
}
use mathlib.Core.Path.{◌≡◌, refl, ap}
use native.Mathlib.Nat.{pow-suc, one-le-pow, div-add-mod}
use native.Mathlib.Omega.{arith}

-- `x << k` and `x >> k`
abbrev pub shl : ℕ → ℕ → ℕ
shl x k = x * 2 ^ k

abbrev pub shr : ℕ → ℕ → ℕ
shr x k = x / 2 ^ k

module _ (rest : ℕ → ℕ) (digit : ℕ → ℕ → ℕ) where
  -- More fuel than the first argument needs changes nothing.
  enough_fuel : (f g a b : ℕ) → a ≤ f → a ≤ g → digits rest digit f a b ≡ digits rest digit g a b
  enough_fuel zero zero zero b p q = refl
  enough_fuel zero (suc g) zero b p q = refl
  enough_fuel (suc f) zero zero b p q = refl
  enough_fuel (suc f) (suc g) zero b p q = refl
  enough_fuel zero g (suc a) b p q = absurd (omega arith)
  enough_fuel (suc f) zero (suc a) b p q = absurd (omega arith)
  enough_fuel (suc f) (suc g) (suc a) b p q =
      ap (λ (t : ℕ). t * 2 + digit (suc a % 2) (b % 2))
        (enough_fuel f g (suc a / 2) (b / 2) (omega arith) (omega arith))

  -- One round: the lowest digit, and the other digits with fuel of their own.
  one_round :
      (a b : ℕ)
      → digits rest digit (suc a) (suc a) b
        ≡ digits rest digit (suc a / 2) (suc a / 2) (b / 2) * 2 + digit (suc a % 2) (b % 2)
  one_round a b =
      ap (λ (t : ℕ). t * 2 + digit (suc a % 2) (b % 2))
        (enough_fuel a (suc a / 2) (suc a / 2) (b / 2) (omega arith) (omega arith))

zero-bit_and : (y : ℕ) → bit_and 0 y ≡ 0
zero-bit_and = bit_and-bitwise 0

zero-bit_or : (b : ℕ) → bit_or 0 b ≡ b
zero-bit_or = bit_or-bitwise 0

zero-bit_xor : (b : ℕ) → bit_xor 0 b ≡ b
zero-bit_xor = bit_xor-bitwise 0

pub bit_xor_step : (x y : ℕ) → bit_xor x y ≡ differ (x % 2) (y % 2) + 2 * bit_xor (x / 2) (y / 2)
bit_xor_step zero y = omega (arith, zero-bit_xor (y / 2), zero-bit_xor y)
bit_xor_step (suc x) y =
    let half = bit_xor-bitwise (suc x / 2) (y / 2) in
    let whole = bit_xor-bitwise (suc x) y in
    omega (arith, half, whole, one_round (λ t. t) differ x y)

pub bit_or_step : (x y : ℕ) → bit_or x y ≡ max (x % 2) (y % 2) + 2 * bit_or (x / 2) (y / 2)
bit_or_step zero y = omega (arith, zero-bit_or (y / 2), zero-bit_or y)
bit_or_step (suc x) y =
    let half = bit_or-bitwise (suc x / 2) (y / 2) in
    let whole = bit_or-bitwise (suc x) y in omega (arith, half, whole, one_round (λ t. t) max x y)

pub bit_and_step : (x y : ℕ) → bit_and x y ≡ min (x % 2) (y % 2) + 2 * bit_and (x / 2) (y / 2)
bit_and_step zero y = omega (arith, zero-bit_and (y / 2), zero-bit_and y)
bit_and_step (suc x) y =
    let half = bit_and-bitwise (suc x / 2) (y / 2) in
    let whole = bit_and-bitwise (suc x) y in omega (arith, half, whole, one_round (λ t. 0) min x y)

differ-le : (x y : ℕ) → x ≤ 1 → y ≤ 1 → differ x y ≤ 1
differ-le zero y p q = q
differ-le (suc zero) zero p q = p
differ-le (suc zero) (suc y) p q = omega arith
differ-le (suc (suc x)) y p q = absurd (omega arith)

halves : (k a : ℕ) → a < 2 ^ suc k → a / 2 < 2 ^ k
halves k a h = omega (arith, pow-suc 2 k)

-- The exclusive or of two numbers of `k` bits has `k` bits.
pub bit_xor-lt : (k a b : ℕ) → a < 2 ^ k → b < 2 ^ k → bit_xor a b < 2 ^ k
bit_xor-lt zero a b p q =
    let e : a ≡ 0 = omega arith in omega (arith, zero-bit_xor b, ap (λ (t : ℕ). bit_xor t b) e)
bit_xor-lt (suc k) a b p q = omega (
  arith,
  pow-suc 2 k,
  bit_xor_step a b,
  differ-le (a % 2) (b % 2) (omega arith) (omega arith),
  bit_xor-lt k (a / 2) (b / 2) (halves k a p) (halves k b q),
)

bit_and-zero : (k a : ℕ) → a < 2 ^ k → bit_and a 0 ≡ 0
bit_and-zero zero a h =
    let e : a ≡ 0 = omega arith in omega (arith, zero-bit_and 0, ap (λ (t : ℕ). bit_and t 0) e)
bit_and-zero (suc k) a h = omega (arith, bit_and_step a 0, bit_and-zero k (a / 2) (halves k a h))

lt_two_pow : (a : ℕ) → a < 2 ^ a
lt_two_pow zero = omega arith
lt_two_pow (suc a) = omega (arith, pow-suc 2 a, lt_two_pow a)

times_two : (q k : ℕ) → q * 2 ^ suc k ≡ q * 2 ^ k * 2
times_two q k = omega (arith, ap (λ (t : ℕ). q * t) (pow-suc 2 k))

-- Fields that do not overlap are joined by a sum.
pub bit_or_fields : (k lo hi : ℕ) → lo < 2 ^ k → bit_or lo (hi * 2 ^ k) ≡ lo + hi * 2 ^ k
bit_or_fields zero lo hi h =
    let e : lo ≡ 0 = omega arith in
    omega (arith, zero-bit_or (hi * 2 ^ 0), ap (λ (t : ℕ). bit_or t (hi * 2 ^ 0)) e)
bit_or_fields (suc k) lo hi h = ground (
  arith,
  bit_or_step lo (hi * 2 ^ suc k),
  times_two hi k,
  bit_or_fields k (lo / 2) hi (halves k lo h),
)

bit_and_fields : (k lo hi : ℕ) → lo < 2 ^ k → bit_and (lo + hi * 2 ^ k) (2 ^ k - 1) ≡ lo
bit_and_fields zero lo hi h =
    let e : lo ≡ 0 = omega arith in
    let n = lo + hi * 2 ^ 0 in omega (arith, bit_and-zero n n (lt_two_pow n))
bit_and_fields (suc k) lo hi h = ground (
  arith,
  bit_and_step (lo + hi * 2 ^ suc k) (2 ^ suc k - 1),
  times_two hi k,
  pow-suc 2 k,
  one-le-pow k 2,
  bit_and_fields k (lo / 2) hi (halves k lo h),
)

-- A mask of `k` ones is the remainder by `2 ^ k`.
pub bit_and_mask : (k a : ℕ) → bit_and a (2 ^ k - 1) ≡ a % 2 ^ k
bit_and_mask k a =
    ground (arith, one-le-pow k 2, div-add-mod a (2 ^ k), bit_and_fields k (a % 2 ^ k) (a / 2 ^ k))

pub bit_and-one : (a : ℕ) → bit_and a 1 ≡ a % 2
bit_and-one a = omega (arith, bit_and_step a 1, bit_and-zero (a / 2) (a / 2) (lt_two_pow (a / 2)))

pub bit_and-double : (a b : ℕ) → bit_and a (2 * b) ≡ 2 * bit_and (a / 2) b
bit_and-double a b =
    let half : 2 * b / 2 ≡ b = omega arith in
    omega (arith, bit_and_step a (2 * b), ap (λ (t : ℕ). bit_and (a / 2) t) half)
