-- ===== src/SpinWait/Counts.antt =====
-- The count of a SpinWait after any number of spins.
use logpp.Common.{
  ℕ, zero, suc, ◌+◌, ◌-◌, ◌*◌, ◌%◌, ◌^◌, ◌≤◌, ◌<◌, ◌≡◌, refl, ap, false, ltb, arith, pow_le,
  Bool-cases, inl, inr, if◌then◌else◌,
}
use logpp.SpinWait.{
  Spin, sleeps, yields, spins, next_spin_will_yield, yielding, spin_kind, next_count, spin_once,
  reset,
}

-- The count after `n` spins behind a reset.
unfoldable pub count_after : ℕ → ℕ → ℕ
unfolding reset spin_once
count_after m_count zero = reset m_count
count_after m_count (suc n) = (spin_once (count_after m_count n)).1

-- The count goes up to the largest `int32_t`, and then round from the threshold to there.
unfoldable pub wrapped : ℕ → ℕ
wrapped n = if ltb n 0x80000000 then n else 10 + (n - 0x80000000) % 0x7ffffff6

wrapped_bound : (n : ℕ) → wrapped n < 0x80000000
unfolding wrapped
wrapped_bound n = ground arith

next_count-wrapped : (n : ℕ) → next_count (wrapped n) ≡ wrapped (suc n)
unfolding wrapped next_count
next_count-wrapped n = ground arith

wrapped_zero : 0 ≡ wrapped 0
unfolding wrapped
wrapped_zero = refl

count_after_eq : (m_count n : ℕ) → count_after m_count n ≡ wrapped n
unfolding count_after reset spin_once
count_after_eq m_count zero = wrapped_zero
count_after_eq m_count (suc n) = rw (count_after_eq m_count n) (next_count-wrapped n)

-- How often a spin yields in its loop.
abbrev pub yields_in_loop : Spin → ℕ
yields_in_loop (sleeps ms) = 0
yields_in_loop yields = 0
yields_in_loop (spins n) = n

yielding_never : (c : ℕ) → yields_in_loop (yielding c) ≡ 0
unfolding yielding
yielding_never c = ground arith

small : (c : ℕ) → ltb 10 c ≡ false → c ≤ 10
small c h = ground (arith, h)

no_wrap : (c : ℕ) → ltb 10 c ≡ false → 4 * 2 ^ c ≤ 4096
no_wrap c h = omega (arith, pow_le c 10 (small c h))

spin_kind_eq : (c : ℕ) → spin_kind c ≡ (if ltb 10 c then yielding c else spins (4 * 2 ^ c))
unfolding spin_kind next_spin_will_yield
spin_kind_eq c = elim (Bool-cases (ltb 10 c)) [
  | inl h ↦ rw h refl
  | inr h ↦ rw h (ap spins (omega (arith, no_wrap c h)))
]

spin_kind-bounded : (c : ℕ) → yields_in_loop (spin_kind c) ≤ 4096
spin_kind-bounded c = rw (spin_kind_eq c) (elim (Bool-cases (ltb 10 c)) [
  | inl h ↦ rw h (omega (arith, yielding_never c))
  | inr h ↦ rw h (no_wrap c h)
])

-- After any number of spins behind a reset, the count is the number of spins up to the largest `int32_t`,
-- and from there on goes round between 10 and that number; it never overflows. A spin yields 4096 times
-- in its loop at most, and its shift loses no bit: where it does not go over to sleeping and yielding, it
-- yields four times two to the power of the count.
pub spin_once-counts :
    (m_count n : ℕ)
    → (count_after m_count n ≡ wrapped n)
      × (count_after m_count n < 0x80000000)
      × ((spin_once (count_after m_count n)).0
          ≡ (if ltb 10 (wrapped n) then yielding (wrapped n) else spins (4 * 2 ^ wrapped n)))
      × (yields_in_loop (spin_once (count_after m_count n)).0 ≤ 4096)
unfolding spin_once
spin_once-counts m_count n = (
  count_after_eq m_count n,
  rw (count_after_eq m_count n) (wrapped_bound n),
  rw (count_after_eq m_count n) (spin_kind_eq (wrapped n)),
  spin_kind-bounded (count_after m_count n),
)
