-- ===== src/BoundedQueue.antt =====
-- include/logpp/queue/BoundedTypedConcurrentAsyncQueue.h: a bounded queue of events, numbers here, over
-- the third-party MPMCQueue, which is a record of operations.
pub mod Bits
pub mod Fill
pub mod Rounding
pub mod Polls
mod Tests
use logpp.Common.{
  ℕ, zero, suc, ◌+◌, ◌-◌, ◌/◌, ◌%◌, ◌^◌, Bool, true, false, not, ◌&&◌, Option, none, some, List, [],
  ◌∷◌, ◌++◌, if◌then◌else◌, ◌==◌, ◌>>=◌,
}
use Prim.Native.Nat.{bit_and, bit_or}

-- `rigtorp::MPMCQueue`: the constructor throws for some capacities, which is `none`; `push` waits while the
-- queue is full, which is `none` too.
pub record QueueOperations (Q : Type 0) : Type 0 where
  pub make : ℕ → Option Q
  pub push_entry : ℕ → Q → Option Q
  pub try_pop : Q → Option (ℕ × Q)

unfoldable pub is_power_of_two : ℕ → Bool
is_power_of_two value = not (value == 0) && bit_and value (value - 1) == 0

-- The loop over i = 1, 2, 4, …, for as many rounds as there are exponents.
unfoldable pub smear : ℕ → ℕ → ℕ → ℕ
smear zero exponent value = value
smear (suc rounds) exponent value =
    smear rounds (suc exponent) (bit_or value (value / 2 ^ (2 ^ exponent)))

-- `size_t` has 64 bits, so that i goes up to 32.
unfoldable pub round_next_power_of_two : ℕ → ℕ
round_next_power_of_two value =
    if value == 0
    then 1
    else if is_power_of_two value
    then value
    else (smear 6 0 (value - 1) + 1) % 2 ^ 64

module _ {Q : Type 0} (o : QueueOperations Q) where
  -- The queue, whether a handler is set, and the entries that it was given.
  pub record BoundedQueue : Type 0 where
    pub queue : Q
    pub has_handler : Bool
    pub handled : List ℕ

  unfoldable pub new_bounded_queue : ℕ → Option BoundedQueue
  unfolding round_next_power_of_two
  new_bounded_queue size = o.make (round_next_power_of_two size) >>= λ q.
      some record { queue = q; has_handler = false; handled = [] }

  unfoldable pub set_handler : Bool → BoundedQueue → BoundedQueue
  set_handler handler b = record b { has_handler = handler }

  unfoldable pub push : ℕ → BoundedQueue → Option BoundedQueue
  push entry b = o.push_entry entry b.queue >>= λ q. some (record b { queue = q })

  unfoldable pub handle_popped : ℕ → Q → BoundedQueue → BoundedQueue
  handle_popped entry q b = record b {
    queue = q;
    handled = if b.has_handler then b.handled ++ (entry ∷ []) else b.handled;
  }

  unfoldable pub poll_one : BoundedQueue → BoundedQueue × ℕ
  unfolding handle_popped
  poll_one b = elim (o.try_pop b.queue) [
    | none ↦ (b, 0)
    | some (entry, q) ↦ (handle_popped entry q b, 1)
  ]

  -- `poll`, with its count; `none` is a loop that has not ended within the fuel.
  unfoldable pub poll_from : ℕ → ℕ → BoundedQueue → Option (BoundedQueue × ℕ)
  unfolding handle_popped
  poll_from zero total_count b = none
  poll_from (suc fuel) total_count b =
      let later = poll_from fuel (total_count + 1) in
      elim (o.try_pop b.queue) [
        | none ↦ some (b, total_count)
        | some (entry, q) ↦ later (handle_popped entry q b)
      ]

  unfoldable pub poll : ℕ → BoundedQueue → Option (BoundedQueue × ℕ)
  unfolding poll_from
  poll fuel b = poll_from fuel 0 b
