-- ===== src/AsyncSink/Tests.antt =====
-- An asynchronous sink at concrete steps and options.
use logpp.Common.{
  ℕ, ◌≡◌, ◌≤◌, ◌^◌, refl, true, Option, some, List, [], ◌∷◌, ◌++◌, length, replicate,
  length-replicate, codes, arith,
}
use logpp.Level.{info}
use logpp.Sinks.{terminal}
use logpp.Buffer.{fresh, advance}
use logpp.Buffer.Wellformed.{IsValid}
use logpp.Event.{StringView, new_event}
use logpp.Options.{Text, Options, array_value}
use logpp.FileSink.Sizes.{ℤ, pos}
use logpp.Poller.{new_poller, round_step, add_step}
use logpp.Poller.Delivery.{events_of, pushed}
use logpp.AsyncSink.{
  QueueEntry, AsyncSink, AsyncStep, sink_step, poller_step, run_async, entries_at, hand_on,
}
use logpp.AsyncSink.Carried.{AllCarried}
use logpp.AsyncSink.Numbers.{IsNumbered, count_from}
use logpp.AsyncSink.Order.{run_async-order}

abbrev zeroed : ℕ → Option (List ℕ)
zeroed n = some (replicate n 0)

zeroed-total : (n : ℕ) → (d : List ℕ) × (zeroed n ≡ some d) × (length d ≡ n)
zeroed-total n = (replicate n 0, refl, length-replicate n 0)

abbrev view : ℕ → StringView
view address = record { data_at = address; size = 1 }

abbrev entry : ℕ → QueueEntry
entry address = record { name = view address; level = info; log_buffer = new_event }

-- The poller has been started, and knows no queue yet.
abbrev sink_7 : AsyncSink
sink_7 = record {
  queue = 7;
  capacity = 2;
  inner_sink = terminal 1;
  poller = record new_poller { running = true; joinable = true; alive = true };
  entries = [];
}

sink_7-IsNumbered : IsNumbered sink_7
unfolding events_of count_from
sink_7-IsNumbered = record { numbered = refl }

abbrev steps : List AsyncStep
steps =
    sink_step (entry 4096)
    ∷ poller_step (add_step 7)
    ∷ poller_step round_step
    ∷ sink_step (entry 8192)
    ∷ []

new_event-IsValid : IsValid new_event.buffer
unfolding new_event fresh advance
new_event-IsValid = record {
  fits = omega arith;
  room = omega arith;
  small = omega arith;
  live = tt;
}

new_event-limited : new_event.buffer.cursor ≤ 2 ^ 62
unfolding new_event fresh advance
new_event-limited = omega arith

run_async-order_example :
    (a' : AsyncSink) × (handed : List QueueEntry) × (run_async zeroed steps sink_7 ≡ some a')
    × IsNumbered a'
    × (hand_on (entries_at a'.entries (events_of a'.queue a'.poller.delivered)) ≡ some handed)
    × AllCarried
        (entry 4096 ∷ entry 8192 ∷ [])
        (handed ++ entries_at a'.entries (a'.poller.pending a'.queue))
unfolding pushed
run_async-order_example =
    run_async-order zeroed zeroed-total steps sink_7 sink_7-IsNumbered tt (tt, refl, (tt, refl, tt))
      (new_event-IsValid, new_event-limited, (new_event-IsValid, new_event-limited, tt))
      (omega arith)

abbrev no_digits : Text → ℤ × Text
no_digits s = (pos 0, s)

abbrev sinks_only : Options
sinks_only = (codes "sinks", array_value (codes "console" ∷ [])) ∷ []
