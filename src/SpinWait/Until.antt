-- ===== src/SpinWait/Until.antt =====
-- `spinUntil` without a timeout, and with one of a millisecond.
use logpp.Common.{
  ℕ, zero, suc, ◌+◌, ◌≤◌, ◌≡◌, refl, Bool, true, false, List, [], ◌∷◌, length, take, arith,
  Bool-cases, inl, inr, if◌then◌else◌,
}
use logpp.FileSink.Sizes.{pos, negsuc}
use logpp.SpinWait.{
  next_count, next_spin_will_yield, Round, returned, still_waiting, is_timeout, has_passed,
  spin_loop, spin_until,
}

-- Whether the condition held in one of the rounds.
abbrev pub any_held : List Round → Bool
any_held [] = false
any_held (r ∷ rounds) = if r.condition then true else any_held rounds

next_count_eq : (k n : ℕ) → k + suc (suc n) ≡ 11 → next_count k + suc n ≡ 11
unfolding next_count
next_count_eq k n e = ground (arith, e)

spin_loop-one :
    (k num : ℕ) (rounds : List Round)
    → spin_loop (pos 1) num k rounds ≡ (if any_held rounds then returned true else still_waiting)
unfolding spin_loop is_timeout
spin_loop-one k num [] = refl
spin_loop-one k num (r ∷ rounds) = elim (Bool-cases r.condition) [
  | inl c ↦ rw c refl
  | inr c ↦ rw c (spin_loop-one (next_count k) num rounds)
]

spin_loop-endless :
    (n k : ℕ) (num : ℕ) (rounds : List Round)
    → k + suc n ≡ 11
    → suc n ≤ length rounds
    → spin_loop (negsuc zero) num k rounds ≡ returned (any_held (take (suc n) rounds))
unfolding spin_loop next_count next_spin_will_yield is_timeout has_passed
spin_loop-endless n k num [] e h = absurd (omega (arith, h))
spin_loop-endless zero k num (r ∷ rounds) e h = ground (arith, e)
spin_loop-endless (suc n) k num (r ∷ rounds) e h = ground (
  arith,
  e,
  spin_loop-endless n (next_count k) num rounds (next_count_eq k n e) (omega (arith, h)),
)

-- Without a timeout, which is -1, spinUntil does not wait for the condition: given eleven rounds, it
-- returns after them at the latest, with whether the condition held in one of them.
pub spin_until-endless :
    (start : ℕ) (rounds : List Round)
    → 11 ≤ length rounds
    → spin_until true (negsuc 0) start rounds ≡ returned (any_held (take 11 rounds))
unfolding spin_until
spin_until-endless start rounds h = spin_loop-endless 10 0 0 rounds refl h

-- With a timeout of one millisecond it returns when the condition holds, and never before.
spin_until-one :
    (start : ℕ) (rounds : List Round)
    → spin_until true (pos 1) start rounds
      ≡ (if any_held rounds then returned true else still_waiting)
unfolding spin_until
spin_until-one start rounds = spin_loop-one 0 start rounds
