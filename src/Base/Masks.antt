-- ===== src/Base/Masks.antt =====
-- A number cut at a bit: masks of the low bits.
use Prim.Native.Nat.{ℕ, zero, suc, ◌+◌, ◌-◌, ◌*◌, ◌/◌, ◌%◌, ◌^◌, ◌<◌, bit_and, bit_or}
use mathlib.Core.Path.{◌≡◌, ap}
use native.Mathlib.Nat.{pow-suc, one-le-pow}
use native.Mathlib.Omega.{arith}
use server_framework.Base.Bits.{
  and_step, or_step, and-zero, or-zero, double_pow, ones_odd, half_ones,
}

-- `a & 0b1…1` is what lies below the bit.
pub bit_and-ones : (k high low : ℕ) → low < 2 ^ k → bit_and (high * 2 ^ k + low) (2 ^ k - 1) ≡ low
bit_and-ones zero high low h = omega (arith, and-zero (high * 2 ^ 0 + low))
bit_and-ones (suc k) high low h =
    let half : (high * 2 ^ suc k + low) / 2 ≡ high * 2 ^ k + low / 2 =
      omega (arith, double_pow high k) in
    let odd : (high * 2 ^ suc k + low) % 2 ≡ low % 2 = omega (arith, double_pow high k) in
    omega (
      arith,
      and_step (high * 2 ^ suc k + low) (2 ^ suc k - 1),
      ap (λ (m : ℕ). bit_and m ((2 ^ suc k - 1) / 2)) half,
      ap (λ (m : ℕ). bit_and (high * 2 ^ k + low / 2) m) (half_ones k),
      odd,
      ones_odd k,
      pow-suc 2 k,
      bit_and-ones k high (low / 2) (omega (arith, pow-suc 2 k)),
    )

-- `a | 0b1…1` sets what lies below the bit.
pub bit_or-ones :
    (k high low : ℕ)
    → low < 2 ^ k
    → bit_or (high * 2 ^ k + low) (2 ^ k - 1) ≡ high * 2 ^ k + (2 ^ k - 1)
bit_or-ones zero high low h = omega (arith, or-zero (high * 2 ^ 0 + low))
bit_or-ones (suc k) high low h =
    let half : (high * 2 ^ suc k + low) / 2 ≡ high * 2 ^ k + low / 2 =
      omega (arith, double_pow high k) in
    omega (
      arith,
      or_step (high * 2 ^ suc k + low) (2 ^ suc k - 1),
      ap (λ (m : ℕ). bit_or m ((2 ^ suc k - 1) / 2)) half,
      ap (λ (m : ℕ). bit_or (high * 2 ^ k + low / 2) m) (half_ones k),
      ones_odd k,
      pow-suc 2 k,
      double_pow high k,
      one-le-pow k 2,
      bit_or-ones k high (low / 2) (omega (arith, pow-suc 2 k)),
    )
