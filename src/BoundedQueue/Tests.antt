-- ===== src/BoundedQueue/Tests.antt =====
-- The bounded queue over a list with a capacity.
use logpp.Common.{
  ℕ, ◌*◌, ◌^◌, ◌≤◌, ◌<◌, ◌≡◌, refl, true, Option, none, some, List, [], ◌∷◌, ◌++◌, length, ltb,
  ◌==◌, if◌then◌else◌, arith, ap,
}
use logpp.BoundedQueue.{QueueOperations, BoundedQueue, round_next_power_of_two, push, poll}
use logpp.BoundedQueue.Rounding.{round_next_power_of_two-power}
use logpp.BoundedQueue.Polls.{IsFifo, given, push_each, poll-push_each}

abbrev pop_list : ℕ × List ℕ → Option (ℕ × (ℕ × List ℕ))
pop_list (capacity, []) = none
pop_list (capacity, x ∷ xs) = some (x, (capacity, xs))

abbrev list_queue : QueueOperations (ℕ × List ℕ)
list_queue = record {
  make = λ n. if n == 0 then none else some (n, []);
  push_entry = λ x q. if ltb (length q.1) q.0 then some (q.0, q.1 ++ (x ∷ [])) else none;
  try_pop = pop_list;
}

abbrev entries : ℕ × List ℕ → List ℕ
entries q = q.1

list_queue-IsFifo : IsFifo list_queue entries
list_queue-IsFifo = record { pop_empty = empty; pop_first = first; push_last = last }
  where
    empty : (q : ℕ × List ℕ) → q.1 ≡ [] → pop_list q ≡ none
    empty (c, []) h = refl
    empty (c, x ∷ xs) h = absurd (cc)

    first :
        (q : ℕ × List ℕ) (x : ℕ) (xs : List ℕ)
        → q.1 ≡ x ∷ xs
        → (q' : ℕ × List ℕ) × (pop_list q ≡ some (x, q')) × (q'.1 ≡ xs)
    first (c, []) x xs h = absurd (cc)
    first (c, y ∷ ys) x xs h =
        let same : y ≡ x = cc in ((c, ys), ap (λ z. some (z, (c, ys))) same, cc)

    last :
        (q q' : ℕ × List ℕ) (x : ℕ)
        → (if ltb (length q.1) q.0 then some (q.0, q.1 ++ (x ∷ [])) else none) ≡ some q'
        → q'.1 ≡ q.1 ++ (x ∷ [])
    last (c, xs) (c', xs') x h = ground (arith, h)

abbrev two_left : BoundedQueue list_queue
two_left = record { queue = (4, 1 ∷ 2 ∷ []); has_handler = true; handled = 0 ∷ [] }

abbrev four_left : BoundedQueue list_queue
four_left = record two_left { queue = (4, 1 ∷ 2 ∷ 3 ∷ 4 ∷ []) }

poll-push_each_example :
    (b : BoundedQueue list_queue) × (poll list_queue 9 four_left ≡ some (b, 4))
    × (entries b.queue ≡ [])
    × (b.handled ≡ (0 ∷ []) ++ given true (1 ∷ 2 ∷ 3 ∷ 4 ∷ []))
unfolding push_each push
poll-push_each_example =
    poll-push_each list_queue entries list_queue-IsFifo (3 ∷ 4 ∷ []) two_left four_left 9 refl
      (omega arith)

round_next_power_of_two-power_example :
    (k : ℕ) × (round_next_power_of_two 1000 ≡ 2 ^ k) × (1000 ≤ 2 ^ k) × (2 ^ k < 2 * 1000)
round_next_power_of_two-power_example =
    round_next_power_of_two-power 1000 (omega arith) (omega arith)
