-- ===== src/Poller/Tests.antt =====
-- The theorems on the poller at concrete runs.
use logpp.Common.{◌≡◌, refl, true, false, some, List, [], ◌∷◌, ◌++◌, if◌then◌else◌, ◌==◌}
use logpp.Poller.{
  AsyncQueuePoller, new_poller, contains, Step, stop_step, round_step, remove_step, push_step, run,
  round, stop, handle_entries, handle_entry, handle_queue, poll_queues, poll,
}
use logpp.Poller.Delivery.{history, events_of, pushed, run-history}
use logpp.Poller.Stop.{round-stop}

-- A poller that has been started, with queue 7 and two events in it.
abbrev started : AsyncQueuePoller
started = record new_poller {
  running = true;
  joinable = true;
  alive = true;
  queues = 7 ∷ [];
  pending = λ q. if q == 7 then 10 ∷ 11 ∷ [] else [];
}

abbrev steps : List Step
steps =
    push_step 7 12
    ∷ round_step
    ∷ push_step 8 1
    ∷ remove_step 7 0
    ∷ push_step 7 13
    ∷ stop_step
    ∷ round_step
    ∷ []

run-history_example :
    (s' : AsyncQueuePoller) × (run steps started ≡ some s')
    × (history 7 s' ≡ history 7 started ++ pushed 7 steps)
run-history_example = run-history 7 steps started tt

round-stop_example :
    ((round (stop started)).alive ≡ false)
    × ((round (stop started)).pending 7 ≡ [])
    × (events_of 7 (round (stop started)).delivered ≡ history 7 started)
unfolding round stop handle_entries handle_entry handle_queue poll_queues poll contains
round-stop_example = round-stop 7 started refl refl refl
