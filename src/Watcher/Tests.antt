-- ===== src/Watcher/Tests.antt =====
-- A watcher at concrete calls and events.
use logpp.Common.{ℕ, ◌≡◌, refl, true, false, none, some, List, [], ◌∷◌, ◌++◌, codes, map}
use logpp.Poller
use logpp.Poller.{new_poller, AsyncQueuePoller}
use logpp.Watcher.{
  Watcher, new_watcher, start, InotifyEvent, events, again, failed, idle, readable, stop_waits,
  poll_one, WatchStep, add_step, remove_step, poll_step, run_watcher,
}
use logpp.Watcher.History.{watched, calls, news}
use logpp.Watcher.Calls.{run_watcher-calls}
use logpp.Watcher.Deadlock.{answers, poll_one-waits}

abbrev modified : ℕ → InotifyEvent
modified wd = record { wd = wd; ignored = false }

abbrev dropped : ℕ → InotifyEvent
dropped wd = record { wd = wd; ignored = true }

abbrev unstarted : Watcher
unstarted = record {
  fd = 5;
  queue = none;
  entries = [];
  poller = new_poller;
  invoked = [];
  closed = [];
}

-- The second callback for the first file shares its descriptor.
abbrev steps : List WatchStep
steps =
    add_step (codes "a.toml") 10 (some 1)
    ∷ add_step (codes "b.toml") 20 (some 2)
    ∷ add_step (codes "a.toml") 30 (some 1)
    ∷ poll_step 0
        (readable (events (modified 1 ∷ modified 3 ∷ []) ∷ events (modified 2 ∷ []) ∷ again ∷ []))
    ∷ remove_step 1 true
    ∷ poll_step 0 idle
    ∷ poll_step 0 (readable (events (dropped 1 ∷ modified 1 ∷ []) ∷ again ∷ []))
    ∷ []

calls-steps : calls (news steps []) ≡ (10, codes "a.toml") ∷ (20, codes "b.toml") ∷ []
unfolding calls watched
calls-steps = refl

run_watcher-calls_example :
    (w : Watcher) × (run_watcher steps (start 7 unstarted) ≡ some w)
    × (w.invoked ≡ calls (news steps []))
unfolding new_watcher
run_watcher-calls_example = run_watcher-calls 5 7 new_poller unstarted steps refl (tt, (tt, tt))

abbrev running : Watcher
running = record unstarted {
  queue = some 7;
  poller = record new_poller { running = true; joinable = true; alive = true };
}

poll_one-waits_example :
    (w : Watcher) × (p : AsyncQueuePoller) × (poll_one 9
        (readable (map events ((modified 1 ∷ []) ∷ []) ++ (failed ∷ [])))
        running
      ≡ (stop_waits 9 w, 1))
    × (Poller.run (Poller.remove_step 7 8 ∷ Poller.stop_step ∷ Poller.remove_step 7 6 ∷ []) w.poller
        ≡ some p)
    × (answers 9 p.promises ≡ [])
poll_one-waits_example =
    poll_one-waits 9 7 ((modified 1 ∷ []) ∷ []) [] running
      (Poller.remove_step 7 8 ∷ Poller.stop_step ∷ Poller.remove_step 7 6 ∷ []) refl refl
      (refl, (refl, tt))
