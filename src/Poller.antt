-- ===== src/Poller.antt =====
-- src/AsyncQueuePoller.cpp and include/logpp/queue/SimpleTypedBlockingQueue.h: the thread that polls
-- the queues of the asynchronous sinks.
--
-- Queues, events and futures are numbers. Each call holds the mutex of the queue that it changes, so
-- that calls, and the calls of `poll` within a round of the thread, are steps one after the other.
pub mod Delivery
pub mod Stop
pub mod Restart
mod Tests
use logpp.Common.{
  ℕ, suc, ◌+◌, Bool, true, false, not, Option, none, some, List, [], ◌∷◌, ◌++◌, length,
  if◌then◌else◌, ◌==◌, ◌>>=◌,
}

pub data ControlAction : Type 0 where
  add_action : ControlAction
  remove_action : ControlAction

pub data Entry : Type 0 where
  stop_entry : Entry
  queue_entry : ℕ → ControlAction → Option ℕ → Entry

-- `alive` says whether the thread is in its loop. `promises` has what futures were given: a count, or
-- an exception. `delivered` has the events that handlers were given, with their queues.
pub record AsyncQueuePoller : Type 0 where
  pub internal_queue : List Entry
  pub queues : List ℕ
  pub running : Bool
  pub joinable : Bool
  pub alive : Bool
  pub stop_signal : Bool
  pub pending : ℕ → List ℕ
  pub delivered : List (ℕ × ℕ)
  pub promises : List (ℕ × Option ℕ)

abbrev pub new_poller : AsyncQueuePoller
new_poller = record {
  internal_queue = [];
  queues = [];
  running = false;
  joinable = false;
  alive = false;
  stop_signal = false;
  pending = λ q. [];
  delivered = [];
  promises = [];
}

-- `std::find` and `erase`
unfoldable pub contains : ℕ → List ℕ → Bool
contains q [] = false
contains q (r ∷ rs) = let later = contains q rs in if r == q then true else later

unfoldable pub erase : ℕ → List ℕ → List ℕ
erase q [] = []
erase q (r ∷ rs) = let later = erase q rs in if r == q then rs else r ∷ later

-- The loop of `SimpleBlockingQueue::poll`, with a handler that takes the event.
unfoldable pub poll_loop : ℕ → List ℕ → List (ℕ × ℕ) → List (ℕ × ℕ)
poll_loop q [] delivered = delivered
poll_loop q (e ∷ es) delivered = poll_loop q es (delivered ++ ((q, e) ∷ []))

unfoldable pub poll : ℕ → AsyncQueuePoller → AsyncQueuePoller
unfolding poll_loop
poll q s = record s {
  pending = λ r. if r == q then [] else s.pending r;
  delivered = poll_loop q (s.pending q) s.delivered;
}

-- `push` on a queue.
unfoldable pub push : ℕ → ℕ → AsyncQueuePoller → AsyncQueuePoller
push q e s = record s { pending = λ r. if r == q then s.pending r ++ (e ∷ []) else s.pending r }

unfoldable pub set_value : Option ℕ → Option ℕ → AsyncQueuePoller → AsyncQueuePoller
set_value none count s = s
set_value (some future) count s = record s { promises = s.promises ++ ((future, count) ∷ []) }

unfoldable pub handle_queue : ℕ → ControlAction → Option ℕ → AsyncQueuePoller → AsyncQueuePoller
unfolding contains erase poll set_value
handle_queue q add_action promise s =
    if contains q s.queues then s else record s { queues = s.queues ++ (q ∷ []) }
handle_queue q remove_action promise s =
    let polled = poll q s in
    if contains q s.queues
    then set_value promise (some (length (s.pending q)))
        (record polled { queues = erase q s.queues })
    else set_value promise (some 0) s

unfoldable pub handle_entry : Entry → AsyncQueuePoller → AsyncQueuePoller
unfolding handle_queue
handle_entry stop_entry s = record s { stop_signal = true }
handle_entry (queue_entry q action promise) s = handle_queue q action promise s

unfoldable pub handle_entries : List Entry → AsyncQueuePoller → AsyncQueuePoller
unfolding handle_entry
handle_entries [] s = s
handle_entries (e ∷ es) s = handle_entries es (handle_entry e s)

unfoldable pub poll_queues : List ℕ → AsyncQueuePoller → AsyncQueuePoller
unfolding poll
poll_queues [] s = s
poll_queues (q ∷ qs) s = poll_queues qs (poll q s)

-- One round of `run`: the internal queue, the queues, and the test of the stop signal.
unfoldable pub round : AsyncQueuePoller → AsyncQueuePoller
unfolding handle_entries poll_queues
round s =
    let s₁ = handle_entries s.internal_queue (record s { internal_queue = [] }) in
    let s₂ = poll_queues s₁.queues s₁ in
    if s.alive then record s₂ { alive = not s₂.stop_signal } else s

-- `start`: to assign to a thread that is joinable calls `std::terminate`, which is `none`.
unfoldable pub start : AsyncQueuePoller → Option AsyncQueuePoller
start s =
    if s.running
    then some s
    else if s.joinable
    then none
    else some (record s { running = true; joinable = true; alive = true })

unfoldable pub stop : AsyncQueuePoller → AsyncQueuePoller
stop s =
    if s.running
    then record s { running = false; internal_queue = s.internal_queue ++ (stop_entry ∷ []) }
    else s

unfoldable pub add_queue : ℕ → AsyncQueuePoller → AsyncQueuePoller
add_queue q s = record s {
  internal_queue = s.internal_queue ++ (queue_entry q add_action none ∷ []);
}

-- `removeQueue`, for the future with a number.
unfoldable pub remove_queue : ℕ → ℕ → AsyncQueuePoller → AsyncQueuePoller
unfolding set_value
remove_queue q future s =
    if s.running
    then record s {
      internal_queue = s.internal_queue ++ (queue_entry q remove_action (some future) ∷ []);
    }
    else set_value (some future) none s

pub data Step : Type 0 where
  start_step stop_step round_step : Step
  add_step : ℕ → Step
  remove_step : ℕ → ℕ → Step
  push_step : ℕ → ℕ → Step

unfoldable pub take_step : Step → AsyncQueuePoller → Option AsyncQueuePoller
unfolding round start stop add_queue remove_queue push
take_step start_step s = start s
take_step stop_step s = some (stop s)
take_step round_step s = some (round s)
take_step (add_step q) s = some (add_queue q s)
take_step (remove_step q future) s = some (remove_queue q future s)
take_step (push_step q e) s = some (push q e s)

unfoldable pub run : List Step → AsyncQueuePoller → Option AsyncQueuePoller
unfolding take_step
run [] s = some s
run (x ∷ xs) s = take_step x s >>= λ s'. run xs s'
