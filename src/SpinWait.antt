-- ===== src/SpinWait.antt =====
-- src/SpinWait.cpp and src/SpinWait.h: waiting in a loop, first by spinning and then by yielding.
--
-- What the condition and the clock say in each round of `spinUntil` is a list.
pub mod Counts
pub mod Until
mod Tests
use logpp.Common.{
  ℕ, zero, suc, ◌+◌, ◌-◌, ◌*◌, ◌/◌, ◌%◌, ◌^◌, Bool, true, false, not, ◌&&◌, List, [], ◌∷◌, leb, ltb,
  if◌then◌else◌, ◌==◌,
}
use logpp.FileSink.Sizes.{ℤ, pos, negsuc}

abbrev pub yield_threshold : ℕ
yield_threshold = 10

abbrev pub sleep_0_every_how_many_times : ℕ
sleep_0_every_how_many_times = 5

abbrev pub sleep_1_every_how_many_times : ℕ
sleep_1_every_how_many_times = 20

-- What one spin does: sleeps for some milliseconds, yields, or yields some number of times in a loop.
pub data Spin : Type 0 where
  sleeps : ℕ → Spin
  yields : Spin
  spins : ℕ → Spin

-- The state is `m_count`, which is never negative.
unfoldable pub next_spin_will_yield : ℕ → Bool
next_spin_will_yield m_count = ltb yield_threshold m_count

unfoldable pub yielding : ℕ → Spin
yielding m_count =
    let num = if leb yield_threshold m_count then m_count - 10 else m_count in
    if num % sleep_1_every_how_many_times == sleep_1_every_how_many_times - 1
    then sleeps 1
    else if num % sleep_0_every_how_many_times == sleep_0_every_how_many_times - 1
    then sleeps 0
    else yields

-- `spinOnce`: what it does, and the count behind it. The shift is of 32 bits.
unfoldable pub spin_kind : ℕ → Spin
unfolding next_spin_will_yield yielding
spin_kind m_count =
    if next_spin_will_yield m_count then yielding m_count else spins (4 * 2 ^ m_count % 2 ^ 32)

unfoldable pub next_count : ℕ → ℕ
next_count m_count = if m_count == 0x7fffffff then yield_threshold else m_count + 1

unfoldable pub spin_once : ℕ → Spin × ℕ
unfolding spin_kind next_count
spin_once m_count = (spin_kind m_count, next_count m_count)

unfoldable pub reset : ℕ → ℕ
reset m_count = 0

-- `tickCount` on Linux, of the seconds and nanoseconds of the monotonic clock.
unfoldable pub tick_count : ℕ → ℕ → ℕ
tick_count tv_sec tv_nsec = (tv_sec * 1000 + tv_nsec / 1000) % 2 ^ 32

-- A round of the loop: what the condition returns, and the ticks where they are read.
pub record Round : Type 0 where
  pub condition : Bool
  pub tick : ℕ

-- `spinUntil` throws, returns, or has used up the rounds.
pub data SpinResult : Type 0 where
  out_of_range invalid_argument still_waiting : SpinResult
  returned : Bool → SpinResult

-- The tests of the timeout: against a constant, and against the ticks that have gone by, which are less
-- than 2^32.
unfoldable pub is_timeout : ℕ → ℤ → Bool
is_timeout n (pos m) = m == n
is_timeout n (negsuc m) = false

unfoldable pub has_passed : ℤ → ℕ → Bool
has_passed (pos m) ticks = leb m ticks
has_passed (negsuc m) ticks = true

unfoldable pub spin_loop : ℤ → ℕ → ℕ → List Round → SpinResult
unfolding next_count next_spin_will_yield is_timeout has_passed
spin_loop timeout num m_count [] = still_waiting
spin_loop timeout num m_count (r ∷ rounds) =
    let later = spin_loop timeout num (next_count m_count) rounds in
    if r.condition
    then returned true
    else if is_timeout 0 timeout
    then returned false
    else if not (is_timeout 1 timeout)
        && (next_spin_will_yield (next_count m_count)
            && has_passed timeout ((r.tick + 2 ^ 32 - num) % 2 ^ 32))
    then returned false
    else later

-- `spinUntil`, for whether there is a condition, the timeout, and the ticks at its start, which are read
-- unless the timeout is 0 or -1.
unfoldable pub spin_until : Bool → ℤ → ℕ → List Round → SpinResult
unfolding spin_loop
spin_until has_condition (negsuc (suc m)) start rounds = out_of_range
spin_until has_condition (negsuc zero) start rounds =
    if has_condition then spin_loop (negsuc zero) 0 0 rounds else invalid_argument
spin_until has_condition (pos m) start rounds =
    if has_condition
    then spin_loop (pos m) (if m == 0 then 0 else start) 0 rounds
    else invalid_argument
