-- ===== src/BoundedQueue/Bits.antt =====
-- Or of two numbers, digit by digit.
use Prim.Native.Nat.{digits, bit_or, bit_or-bitwise}
use logpp.Common.{
  ℕ, zero, suc, ◌+◌, ◌-◌, ◌*◌, ◌/◌, ◌%◌, ◌^◌, ◌≤◌, ◌<◌, ◌≡◌, refl, max, arith, pow_pos,
}

-- The count of digits does not matter, where it is enough.
or_digits-enough :
    (n m a b : ℕ) → a ≤ n → a ≤ m → digits (λ d. d) max n a b ≡ digits (λ d. d) max m a b
or_digits-enough zero zero a b p q = refl
or_digits-enough zero (suc m) zero b p q = refl
or_digits-enough zero (suc m) (suc a) b p q = absurd (omega (arith, p))
or_digits-enough (suc n) zero zero b p q = refl
or_digits-enough (suc n) zero (suc a) b p q = absurd (omega (arith, q))
or_digits-enough (suc n) (suc m) zero b p q = refl
or_digits-enough (suc n) (suc m) (suc a) b p q =
    omega (arith, or_digits-enough n m (suc a / 2) (b / 2) (omega (arith, p)) (omega (arith, q)))

pub zero-bit_or : (b : ℕ) → bit_or 0 b ≡ b
zero-bit_or b = bit_or-bitwise 0 b

pub bit_or-digit : (a b : ℕ) → bit_or a b ≡ bit_or (a / 2) (b / 2) * 2 + max (a % 2) (b % 2)
bit_or-digit zero b = omega (arith, zero-bit_or b, zero-bit_or (b / 2))
bit_or-digit (suc a) b = omega (
  arith,
  bit_or-bitwise (suc a) b,
  bit_or-bitwise (suc a / 2) (b / 2),
  or_digits-enough a (suc a / 2) (suc a / 2) (b / 2) (omega arith) (omega arith),
)

pub bit_or-half : (a b : ℕ) → bit_or a b / 2 ≡ bit_or (a / 2) (b / 2)
bit_or-half a b = omega (arith, bit_or-digit a b)

bit_or-odd : (a b : ℕ) → bit_or a b % 2 ≡ max (a % 2) (b % 2)
bit_or-odd a b = omega (arith, bit_or-digit a b)

bit_or_zero_below : (n a : ℕ) → a ≤ n → bit_or a 0 ≡ a
bit_or_zero_below zero zero h = zero-bit_or 0
bit_or_zero_below zero (suc a) h = absurd (omega (arith, h))
bit_or_zero_below (suc n) zero h = zero-bit_or 0
bit_or_zero_below (suc n) (suc a) h =
    omega (arith, bit_or-digit (suc a) 0, bit_or_zero_below n (suc a / 2) (omega (arith, h)))

pub bit_or-zero : (a : ℕ) → bit_or a 0 ≡ a
bit_or-zero a = bit_or_zero_below a a (omega arith)

bit_or_assoc_below : (n a b c : ℕ) → a + b + c ≤ n → bit_or (bit_or a b) c ≡ bit_or a (bit_or b c)
bit_or_assoc_below zero a b c h =
    let a_zero : a ≡ 0 = omega (arith, h) in
    let b_zero : b ≡ 0 = omega (arith, h) in
    let c_zero : c ≡ 0 = omega (arith, h) in rw (a_zero, b_zero, c_zero) refl
bit_or_assoc_below (suc n) a b c h = omega (
  arith,
  rw (bit_or-half a b, bit_or-odd a b) at (bit_or-digit (bit_or a b) c),
  rw (bit_or-half b c, bit_or-odd b c) at (bit_or-digit a (bit_or b c)),
  bit_or_assoc_below n (a / 2) (b / 2) (c / 2) (omega (arith, h)),
)

pub bit_or_assoc : (a b c : ℕ) → bit_or (bit_or a b) c ≡ bit_or a (bit_or b c)
bit_or_assoc a b c = bit_or_assoc_below (a + b + c) a b c (omega arith)

-- A number of `j + 1` digits, or the ones of `j` digits, is the ones of `j + 1` digits.
pub bit_or-ones : (j m : ℕ) → 2 ^ j ≤ m → m < 2 ^ suc j → bit_or m (2 ^ j - 1) + 1 ≡ 2 ^ suc j
bit_or-ones zero m h g = let one : m ≡ 1 = omega (arith, h, g) in rw one refl
bit_or-ones (suc j) m h g =
    let ih = bit_or-ones j (m / 2) (omega (arith, h)) (omega (arith, g)) in
    let half : (2 ^ suc j - 1) / 2 ≡ 2 ^ j - 1 = omega (arith, pow_pos j) in
    let odd : (2 ^ suc j - 1) % 2 ≡ 1 = omega (arith, pow_pos j) in
    omega (arith, ih, rw (half, odd) at (bit_or-digit m (2 ^ suc j - 1)))
