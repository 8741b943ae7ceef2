-- ===== src/BoundedQueue/Rounding.antt =====
-- `roundNextPowerOfTwo`.
use Prim.Native.Nat.{digits, bit_and, bit_and-bitwise}
use logpp.Common.{
  ℕ, zero, suc, ◌+◌, ◌-◌, ◌*◌, ◌/◌, ◌%◌, ◌^◌, ◌≤◌, ◌<◌, ◌≡◌, refl, ap, sym, ◌∙◌, min, pow_le, true,
  false, ◌==◌, leb, arith, Bool-cases, inl, inr,
}
use logpp.BoundedQueue.{is_power_of_two, smear, round_next_power_of_two}
use logpp.BoundedQueue.Bits.{bit_or-zero}
use logpp.BoundedQueue.Fill.{fill, fill-add, fill-ones}

-- The loop makes the or of all shifts.
smear-fill : (rounds e n m : ℕ) → rounds + e ≡ n → smear rounds e (fill (2 ^ e) m) ≡ fill (2 ^ n) m
unfolding smear
smear-fill zero e n m h = let same : e ≡ n = omega (arith, h) in rw same refl
smear-fill (suc rounds) e n m h =
    let twice : 2 ^ e + 2 ^ e ≡ 2 ^ suc e = omega arith in
    ap (smear rounds (suc e)) (sym (fill-add (2 ^ e) (2 ^ e) m) ∙ ap (λ k. fill k m) twice)
    ∙ smear-fill rounds (suc e) n m (omega (arith, h))

fill_one : (m : ℕ) → fill 1 m ≡ m
unfolding fill
fill_one m = bit_or-zero m

smear-ones :
    (m : ℕ)
    → 0 < m
    → m < 2 ^ 64
    → (k : ℕ) × (smear 6 0 m + 1 ≡ 2 ^ k) × (m < 2 ^ k) × (2 ^ k ≤ 2 * m)
smear-ones m p h =
    let (k, ones, lt, le) = fill-ones 64 m p h in
    (
      k,
      ap (λ x. smear 6 0 x + 1) (sym (fill_one m))
          ∙ ap (λ x. x + 1) (smear-fill 6 0 6 m refl)
          ∙ ones,
      lt,
      le,
    )

and_digits-enough :
    (n m a b : ℕ) → a ≤ n → a ≤ m → digits (λ d. zero) min n a b ≡ digits (λ d. zero) min m a b
and_digits-enough zero zero a b p q = refl
and_digits-enough zero (suc m) zero b p q = refl
and_digits-enough zero (suc m) (suc a) b p q = absurd (omega (arith, p))
and_digits-enough (suc n) zero zero b p q = refl
and_digits-enough (suc n) zero (suc a) b p q = absurd (omega (arith, q))
and_digits-enough (suc n) (suc m) zero b p q = refl
and_digits-enough (suc n) (suc m) (suc a) b p q =
    omega (arith, and_digits-enough n m (suc a / 2) (b / 2) (omega (arith, p)) (omega (arith, q)))

bit_and-digit : (a b : ℕ) → 0 < a → bit_and a b ≡ bit_and (a / 2) (b / 2) * 2 + min (a % 2) (b % 2)
bit_and-digit zero b h = absurd (omega (arith, h))
bit_and-digit (suc a) b h = omega (
  arith,
  bit_and-bitwise (suc a) b,
  bit_and-bitwise (suc a / 2) (b / 2),
  and_digits-enough a (suc a / 2) (suc a / 2) (b / 2) (omega arith) (omega arith),
)

bit_and_self : (n a : ℕ) → a ≤ n → bit_and a a ≡ a
bit_and_self zero a h = let none : a ≡ 0 = omega (arith, h) in rw none refl
bit_and_self (suc n) zero h = refl
bit_and_self (suc n) (suc a) h = omega (
  arith,
  bit_and-digit (suc a) (suc a) (omega arith),
  bit_and_self n (suc a / 2) (omega (arith, h)),
)

power_below : (n v : ℕ) → v ≤ n → 0 < v → bit_and v (v - 1) ≡ 0 → (k : ℕ) × (v ≡ 2 ^ k)
power_below zero v h p e = absurd (omega (arith, h, p))
power_below (suc n) v h p e = elim (Bool-cases (v % 2 == 0)) [
  | inl even ↦
      let is_even : v % 2 ≡ 0 = ground (arith, even) in
      let half : (v - 1) / 2 ≡ v / 2 - 1 = omega (arith, is_even, p) in
      let (k, q) =
        power_below n (v / 2) (omega (arith, h, p)) (omega (arith, is_even, p))
          (omega (arith, e, rw half at (bit_and-digit v (v - 1) p))) in
      (suc k, omega (arith, q, is_even))
  | inr odd ↦
      let is_odd : v % 2 ≡ 1 = ground (arith, odd) in
      let half : (v - 1) / 2 ≡ v / 2 = omega (arith, is_odd) in
      (
        0,
        omega (
          arith,
          is_odd,
          e,
          rw half at (bit_and-digit v (v - 1) p),
          bit_and_self (v / 2) (v / 2) (omega arith),
        ),
      )
]

is_power_facts : (v : ℕ) → is_power_of_two v ≡ true → (0 < v) × (bit_and v (v - 1) ≡ 0)
unfolding is_power_of_two
is_power_facts v h = (ground (arith, h), ground (arith, h))

is_power_of_two-power : (v : ℕ) → is_power_of_two v ≡ true → (k : ℕ) × (v ≡ 2 ^ k)
unfolding is_power_of_two
is_power_of_two-power v h =
    let facts = is_power_facts v h in power_below v v (omega arith) facts.0 facts.1

one_is_power : is_power_of_two 1 ≡ true
unfolding is_power_of_two
one_is_power = refl

two_at_least : (v : ℕ) → 0 < v → is_power_of_two v ≡ false → 1 < v
two_at_least zero p h = absurd (omega (arith, p))
two_at_least (suc zero) p h = let both = one_is_power in absurd (cc)
two_at_least (suc (suc v)) p h = omega arith

-- For a size from 1 to 2^63, `roundNextPowerOfTwo` returns the power of two that is not less than the size,
-- and less than twice the size: the smallest there is.
pub round_next_power_of_two-power :
    (value : ℕ)
    → 0 < value
    → value ≤ 2 ^ 63
    → (k : ℕ) × (round_next_power_of_two value ≡ 2 ^ k) × (value ≤ 2 ^ k) × (2 ^ k < 2 * value)
unfolding round_next_power_of_two
round_next_power_of_two-power value p h = elim (Bool-cases (value == 0)) [
  | inl e ↦ absurd (ground (arith, e, p))
  | inr e ↦ elim (Bool-cases (is_power_of_two value)) [
    | inl power ↦
        let (k, q) = is_power_of_two-power value power in
        (k, rw (e, power) q, omega (arith, q), omega (arith, q, p))
    | inr power ↦
        let more : 1 < value = two_at_least value p power in
        let (k, ones, lt, le) =
          smear-ones (value - 1) (omega (arith, more)) (omega (arith, more, h)) in
        let wraps_not : 2 ^ k % 2 ^ 64 ≡ 2 ^ k = omega (arith, le, h, more) in
        (k, rw (e, power, ones) wraps_not, omega (arith, lt, more), omega (arith, le, more))
  ]
]

exponent : (k : ℕ) → 2 ^ 63 < 2 ^ k → 2 ^ k < 2 ^ 65 → k ≡ 64
exponent k h g = elim (Bool-cases (leb k 63)) [
  | inl e ↦ absurd (omega (arith, pow_le k 63 (ground (arith, e)), h))
  | inr e ↦ elim (Bool-cases (leb 65 k)) [
    | inl q ↦ absurd (omega (arith, pow_le 65 k (ground (arith, q)), g))
    | inr q ↦ ground (arith, e, q)
  ]
]

-- A larger size wraps to 0, unless it is a power of two.
round_next_power_of_two-wraps :
    (value : ℕ)
    → 2 ^ 63 < value
    → value < 2 ^ 64
    → is_power_of_two value ≡ false
    → round_next_power_of_two value ≡ 0
unfolding round_next_power_of_two
round_next_power_of_two-wraps value h g power =
    let not_zero : (value == 0) ≡ false = ground (arith, h) in
    let (k, ones, lt, le) = smear-ones (value - 1) (omega (arith, h)) (omega (arith, h, g)) in
    let top : k ≡ 64 = exponent k (omega (arith, lt, h)) (omega (arith, le, g)) in
    rw (not_zero, power, ones, top) refl
