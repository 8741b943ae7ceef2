-- ===== src/Common/Powers.antt =====
-- Powers of two.
use Prim.Native.Nat.{ℕ, zero, suc, ◌^◌, ◌≤◌, ◌<◌}
use native.Mathlib.Omega.{arith}

pub pow_pos : (n : ℕ) → 0 < 2 ^ n
pow_pos zero = omega arith
pow_pos (suc n) = omega (arith, pow_pos n)

pub pow_le : (c k : ℕ) → c ≤ k → 2 ^ c ≤ 2 ^ k
pow_le zero k h = omega (arith, pow_pos k)
pow_le (suc c) zero h = absurd (omega (arith, h))
pow_le (suc c) (suc k) h = omega (arith, pow_le c k (omega (arith, h)))
