-- ===== src/BoundedQueue/Fill.antt =====
-- Or of a number with its shifts.
use Prim.Native.Nat.{bit_or}
use native.Mathlib.Nat.{div-div-eq-div-mul}
use logpp.Common.{
  ℕ, zero, suc, ◌+◌, ◌-◌, ◌*◌, ◌/◌, ◌^◌, ◌≤◌, ◌<◌, ◌≡◌, refl, ap, sym, ◌∙◌, arith, Bool-cases, inl,
  inr, ◌==◌,
}
use logpp.BoundedQueue.Bits.{zero-bit_or, bit_or-half, bit_or-zero, bit_or_assoc, bit_or-ones}

-- The numbers that or makes of `m` and its first `n` shifts.
unfoldable pub fill : ℕ → ℕ → ℕ
fill zero m = 0
fill (suc n) m = bit_or m (fill n (m / 2))

fill-half : (n m : ℕ) → fill n (m / 2) ≡ fill n m / 2
unfolding fill
fill-half zero m = refl
fill-half (suc n) m =
    ap (bit_or (m / 2)) (fill-half n (m / 2)) ∙ sym (bit_or-half m (fill n (m / 2)))

fill-zero : (n : ℕ) → fill n 0 ≡ 0
unfolding fill
fill-zero zero = refl
fill-zero (suc n) = zero-bit_or (fill n 0) ∙ fill-zero n

half_then : (x a : ℕ) → x / 2 / 2 ^ a ≡ x / 2 ^ suc a
half_then x a =
    let twice : 2 * 2 ^ a ≡ 2 ^ suc a = omega arith in
    div-div-eq-div-mul x 2 (2 ^ a) ∙ ap (λ n. x / n) twice

pub fill-add : (a b m : ℕ) → fill (a + b) m ≡ bit_or (fill a m) (fill b m / 2 ^ a)
unfolding fill
fill-add zero b m =
    let same : 0 + b ≡ b = omega arith in
    ap (λ n. fill n m) same ∙ omega (arith, zero-bit_or (fill b m / 1))
fill-add (suc a) b m =
    let next : suc a + b ≡ suc (a + b) = omega arith in
    ap (λ n. fill n m) next
    ∙ ap (bit_or m) (fill-add a b (m / 2))
    ∙ sym (bit_or_assoc m (fill a (m / 2)) (fill b (m / 2) / 2 ^ a))
    ∙ ap (bit_or (bit_or m (fill a (m / 2))))
        (ap (λ x. x / 2 ^ a) (fill-half b m) ∙ half_then (fill b m) a)

-- All ones, up to the highest digit of `m`.
pub fill-ones :
    (n m : ℕ) → 0 < m → m < 2 ^ n → (k : ℕ) × (fill n m + 1 ≡ 2 ^ k) × (m < 2 ^ k) × (2 ^ k ≤ 2 * m)
unfolding fill
fill-ones zero m p h = absurd (omega (arith, p, h))
fill-ones (suc n) m p h = elim (Bool-cases (m == 1)) [
  | inl e ↦
      let one : m ≡ 1 = ground (arith, e) in
      (
        1,
        rw one (omega (arith, ap (bit_or 1) (fill-zero n), bit_or-zero 1)),
        omega (arith, one),
        omega (arith, one),
      )
  | inr e ↦
      let more : 1 < m = ground (arith, e, p) in
      let (k, ones, lt, le) = fill-ones n (m / 2) (omega (arith, more)) (omega (arith, h)) in
      let pred : fill n (m / 2) ≡ 2 ^ k - 1 = omega (arith, ones) in
      (
        suc k,
        rw pred (bit_or-ones k m (omega (arith, le)) (omega (arith, lt))),
        omega (arith, lt),
        omega (arith, le),
      )
]
