-- ===== src/AsyncSink.antt =====
-- include/logpp/sinks/AsyncSink.h: a sink that puts events into a bounded queue, from which the thread of
-- a poller hands them to the inner sink.
--
-- The queue of the library MPMCQueue is first in, first out, and `push` waits while it is full. It stands
-- in the poller's state under its number; events are numbered in the order of `sink`.
-- The queue moves an element in by `push` and out by `try_pop`. A name is a view of the name of a logger.
pub mod Carried
pub mod Numbers
pub mod Order
pub mod Activation
pub mod Setup
mod Tests
use logpp.Common.{
  ℕ, Option, none, some, List, [], ◌∷◌, ◌++◌, length, get_elem?, if◌then◌else◌, ltb, ◌>>=◌,
}
use logpp.Level.{LogLevel}
use logpp.Sinks.{Sink}
use logpp.Buffer.{copy_construct, move_assign, move_construct}
use logpp.Event.{StringView, EventLogBuffer, new_event}
use logpp.Poller.{AsyncQueuePoller, push, Step, take_step}

-- `AsyncSink::Entry`
pub record QueueEntry : Type 0 where
  pub name : StringView
  pub level : LogLevel
  pub log_buffer : EventLogBuffer

-- `entries` has what `push` has left in the slots of the queue.
pub record AsyncSink : Type 0 where
  pub queue : ℕ
  pub capacity : ℕ
  pub inner_sink : Sink
  pub poller : AsyncQueuePoller
  pub entries : List QueueEntry

-- The move constructor of an entry, into a slot of the queue. The header of an event is among the bytes
-- that are copied or moved, since the cursor is behind it.
unfoldable pub push_entry : QueueEntry → Option QueueEntry
unfolding move_construct
push_entry e = move_construct 256 e.log_buffer.buffer >>= λ r.
    some (record e { log_buffer = record e.log_buffer { buffer = r.0 } })

-- `Entry entry; try_pop(entry)`: the move assignment to an entry that has been made without arguments, whose
-- buffer has advanced past its header.
unfoldable pub pop_entry : QueueEntry → Option QueueEntry
unfolding new_event move_assign
pop_entry e = move_assign new_event.buffer e.log_buffer.buffer >>= λ r.
    some (record e { log_buffer = record e.log_buffer { buffer = r.0 } })

-- The slots with the numbers.
unfoldable pub entries_at : List QueueEntry → List ℕ → List QueueEntry
entries_at es [] = []
entries_at es (i ∷ is) = elim (get_elem? es i) [
  | none ↦ entries_at es is
  | some e ↦ e ∷ entries_at es is
]

-- `poll` and `handleEntry`: what the inner sink is given for entries that are popped.
unfoldable pub hand_on : List QueueEntry → Option (List QueueEntry)
unfolding pop_entry
hand_on [] = some []
hand_on (e ∷ es) = pop_entry e >>= λ h. hand_on es >>= λ hs. some (h ∷ hs)

-- A call of `sink`, or a step of the poller.
pub data AsyncStep : Type 0 where
  sink_step : QueueEntry → AsyncStep
  poller_step : Step → AsyncStep

module _ (malloc : ℕ → Option (List ℕ)) where
  -- `Entry::create`, which copies the event.
  unfoldable pub create : StringView → LogLevel → EventLogBuffer → Option QueueEntry
  unfolding copy_construct
  create name level e = copy_construct malloc 256 e.buffer >>= λ b.
      some (record { name = name; level = level; log_buffer = record e { buffer = b } })

  -- `sink`, of the arguments in a record; `none` waits for room in the queue.
  unfoldable pub sink_entry : QueueEntry → AsyncSink → Option AsyncSink
  unfolding push create push_entry
  sink_entry e a =
      let created = create e.name e.level e.log_buffer in
      if ltb (length (a.poller.pending a.queue)) a.capacity
      then (created >>= push_entry >>= λ slot. some (record a {
        poller = push a.queue (length a.entries) a.poller;
        entries = a.entries ++ (slot ∷ []);
      }))
      else none

  unfoldable pub take_async : AsyncStep → AsyncSink → Option AsyncSink
  unfolding sink_entry take_step
  take_async (sink_step e) a = sink_entry e a
  take_async (poller_step x) a = take_step x a.poller >>= λ p. some (record a { poller = p })

  unfoldable pub run_async : List AsyncStep → AsyncSink → Option AsyncSink
  unfolding take_async
  run_async [] a = some a
  run_async (x ∷ xs) a = take_async x a >>= λ a'. run_async xs a'
