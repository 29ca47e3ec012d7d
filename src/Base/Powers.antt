-- ===== src/Base/Powers.antt =====
-- Powers of two.
use Prim.Native.Nat.{ℕ, zero, suc, ◌*◌, ◌^◌, ◌<◌, ◌≤◌}
use mathlib.Core.Path.{◌≡◌}
use native.Mathlib.Omega.{arith}
use native.Mathlib.Nat.{pow-suc}

pub two_pow-suc : (n : ℕ) → 2 ^ suc n ≡ 2 * 2 ^ n
two_pow-suc n = omega (arith, pow-suc 2 n)

pub two_pow_pos : (n : ℕ) → 0 < 2 ^ n
two_pow_pos zero = omega arith
two_pow_pos (suc n) = omega (arith, two_pow-suc n, two_pow_pos n)

-- A smaller power has a smaller exponent.
pub exponent_lt : (m n : ℕ) → 2 ^ m < 2 ^ n → m < n
exponent_lt m zero h = absurd (omega (arith, two_pow_pos m))
exponent_lt zero (suc n) h = omega arith
exponent_lt (suc m) (suc n) h =
    omega (arith, exponent_lt m n (omega (arith, two_pow-suc m, two_pow-suc n)))

pub exponent_le : (m n : ℕ) → 2 ^ m ≤ 2 ^ n → m ≤ n
exponent_le m n h =
    omega (arith, exponent_lt m (suc n) (omega (arith, two_pow-suc n, two_pow_pos n)))

pub two_pow_mono : (m n : ℕ) → m ≤ n → 2 ^ m ≤ 2 ^ n
two_pow_mono zero n h = omega (arith, two_pow_pos n)
two_pow_mono (suc m) zero h = absurd (omega arith)
two_pow_mono (suc m) (suc n) h =
    omega (arith, two_pow_mono m n (omega arith), two_pow-suc m, two_pow-suc n)
