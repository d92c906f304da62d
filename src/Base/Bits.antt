-- ===== src/Base/Bits.antt =====
-- Bit operations as arithmetic: low masks, disjoint fields and the complement, at every width.
-- The native operations stand for a recursion on binary digits, whose step is proved first.
use Prim.Native.Nat.{
  ℕ, zero, suc, ◌+◌, ◌-◌, ◌*◌, ◌/◌, ◌%◌, ◌^◌, ◌≤◌, ◌<◌, min, max, digits, bitwise, bit_and, bit_or,
  bit_xor, bit_and-bitwise, bit_or-bitwise, bit_xor-bitwise, differ,
}
use mathlib.Core.Path.{◌≡◌, refl, ap}
use native.Mathlib.Nat.{le_refl, pow-suc, one-le-pow}
use native.Mathlib.Omega.{arith}

module _ (z : ℕ → ℕ) (f : ℕ → ℕ → ℕ) where
  -- More fuel than the first argument changes nothing.
  enough_digits : (n m a b : ℕ) → a ≤ n → a ≤ m → digits z f n a b ≡ digits z f m a b
  enough_digits zero zero a b le_n le_m = refl
  enough_digits zero (suc m) zero b le_n le_m = refl
  enough_digits zero (suc m) (suc a) b le_n le_m = absurd (omega arith)
  enough_digits (suc n) zero zero b le_n le_m = refl
  enough_digits (suc n) zero (suc a) b le_n le_m = absurd (omega arith)
  enough_digits (suc n) (suc m) zero b le_n le_m = refl
  enough_digits (suc n) (suc m) (suc a) b le_n le_m =
      rw (enough_digits n m (suc a / 2) (b / 2) (omega arith) (omega arith))

  lowest_digit :
      (a b : ℕ)
      → bitwise z f (suc a) b ≡ bitwise z f (suc a / 2) (b / 2) * 2 + f (suc a % 2) (b % 2)
  lowest_digit a b =
      omega (arith, enough_digits a (suc a / 2) (suc a / 2) (b / 2) (omega arith) (le_refl _))

pub and_step : (a b : ℕ) → bit_and a b ≡ bit_and (a / 2) (b / 2) * 2 + min (a % 2) (b % 2)
and_step zero b = simp bit_and-bitwise (omega arith)
and_step (suc a) b = simp bit_and-bitwise (lowest_digit (λ y. 0) min a b)

pub or_step : (a b : ℕ) → bit_or a b ≡ bit_or (a / 2) (b / 2) * 2 + max (a % 2) (b % 2)
or_step zero b = simp bit_or-bitwise (omega arith)
or_step (suc a) b = simp bit_or-bitwise (lowest_digit (λ y. y) max a b)

zero-or : (b : ℕ) → bit_or 0 b ≡ b
zero-or b = bit_or-bitwise 0 b

zero-and : (b : ℕ) → bit_and 0 b ≡ 0
zero-and b = bit_and-bitwise 0 b

pub double_pow : (q k : ℕ) → q * 2 ^ suc k ≡ 2 * (q * 2 ^ k)
double_pow q k = omega (arith, ap (λ (t : ℕ). q * t) (pow-suc 2 k))

and-zero_below : (n a : ℕ) → a ≤ n → bit_and a 0 ≡ 0
and-zero_below n zero h = refl
and-zero_below zero (suc a) h = absurd (omega arith)
and-zero_below (suc n) (suc a) h =
    omega (arith, and_step (suc a) 0, and-zero_below n (suc a / 2) (omega arith))

pub and-zero : (a : ℕ) → bit_and a 0 ≡ 0
and-zero a = and-zero_below a a (le_refl a)

or-zero_below : (n a : ℕ) → a ≤ n → bit_or a 0 ≡ a
or-zero_below n zero h = zero-or 0
or-zero_below zero (suc a) h = absurd (omega arith)
or-zero_below (suc n) (suc a) h =
    omega (arith, or_step (suc a) 0, or-zero_below n (suc a / 2) (omega arith))

pub or-zero : (a : ℕ) → bit_or a 0 ≡ a
or-zero a = or-zero_below a a (le_refl a)

pub bit_and-one : (a : ℕ) → bit_and a 1 ≡ a % 2
bit_and-one a = omega (arith, and_step a 1, and-zero (a / 2))

bit_and_seven : (a : ℕ) → bit_and a 7 ≡ a % 8
bit_and_seven a = omega (arith, and_step a 7, and_step (a / 2) 3, bit_and-one (a / 2 / 2))

-- `a & 0x7f` is the low seven bits.
pub bit_and_0x7f : (a : ℕ) → bit_and a 0x7f ≡ a % 128
bit_and_0x7f a = omega (
  arith,
  and_step a 127,
  and_step (a / 2) 63,
  and_step (a / 2 / 2) 31,
  and_step (a / 2 / 2 / 2) 15,
  bit_and_seven (a / 2 / 2 / 2 / 2),
)

-- `low | (high << k)` is a sum where `low` fits `k` bits.
pub bit_or-shifted : (k low high : ℕ) → low < 2 ^ k → bit_or low (high * 2 ^ k) ≡ low + high * 2 ^ k
bit_or-shifted zero low high fits = ground (arith, zero-or high)
bit_or-shifted (suc k) low high fits = ground (
  arith,
  or_step low (high * 2 ^ suc k),
  double_pow high k,
  pow-suc 2 k,
  bit_or-shifted k (low / 2) high,
)

-- `low | 0x80` sets the top bit of a byte.
pub bit_or_0x80 : (low : ℕ) → low < 128 → bit_or low 0x80 ≡ low + 128
bit_or_0x80 low h = bit_or-shifted 7 low 1 h

zero-xor : (b : ℕ) → bit_xor 0 b ≡ b
zero-xor b = bit_xor-bitwise 0 b

differ_one : (d : ℕ) → d < 2 → differ d 1 ≡ 1 - d
differ_one zero h = refl
differ_one (suc zero) h = refl
differ_one (suc (suc d)) h = absurd (omega arith)

differ_zero : (d : ℕ) → differ d 0 ≡ d
differ_zero zero = refl
differ_zero (suc d) = refl

pub ones_odd : (k : ℕ) → (2 ^ suc k - 1) % 2 ≡ 1
ones_odd k = omega (arith, pow-suc 2 k, one-le-pow k 2)

pub half_ones : (k : ℕ) → (2 ^ suc k - 1) / 2 ≡ 2 ^ k - 1
half_ones k = omega (arith, pow-suc 2 k, one-le-pow k 2)

xor_step : (a b : ℕ) → bit_xor a b ≡ bit_xor (a / 2) (b / 2) * 2 + differ (a % 2) (b % 2)
xor_step zero b = simp bit_xor-bitwise (omega arith)
xor_step (suc a) b = simp bit_xor-bitwise (lowest_digit (λ y. y) differ a b)

-- `x ^ 0` is `x`.
pub bit_xor-zero : (k x : ℕ) → x < 2 ^ k → bit_xor x 0 ≡ x
bit_xor-zero zero x h = ground (arith, zero-xor 0)
bit_xor-zero (suc k) x h = omega (
  arith,
  xor_step x 0,
  differ_zero (x % 2),
  pow-suc 2 k,
  bit_xor-zero k (x / 2) (omega (arith, pow-suc 2 k)),
)

-- `x ^ 0b1…1` is the complement, in a word of `k` bits.
pub bit_xor-ones : (k x : ℕ) → x < 2 ^ k → bit_xor x (2 ^ k - 1) + x + 1 ≡ 2 ^ k
bit_xor-ones zero x h = ground (arith, zero-xor 0)
bit_xor-ones (suc k) x h = omega (
  arith,
  xor_step x (2 ^ suc k - 1),
  pow-suc 2 k,
  one-le-pow k 2,
  differ_one (x % 2) (omega arith),
  ap (differ (x % 2)) (ones_odd k),
  ap (λ (m : ℕ). bit_xor (x / 2) m) (half_ones k),
  bit_xor-ones k (x / 2) (omega (arith, pow-suc 2 k)),
)
