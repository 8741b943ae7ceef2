-- ===== src/Watcher.antt =====
-- include/logpp/config/impl/FileWatcherLinuxImpl.h and src/FileWatcher.cpp: the watches of files, and the
-- queue that the poller polls for their events.
--
-- What inotify and poll answer is an argument of each operation: a descriptor, the success of a removal,
-- the results of `read`. Callbacks, descriptors and the NotifyQueue are numbers.
pub mod History
pub mod Entries
pub mod Calls
pub mod Deadlock
mod Tests
use logpp.Common.{
  ℕ, zero, suc, Bool, true, false, Option, none, some, List, [], ◌∷◌, ◌++◌, if◌then◌else◌, ◌==◌,
  ltb, ◌>>=◌,
}
use logpp.Poller
use logpp.Poller.{AsyncQueuePoller, add_queue, remove_queue}

pub record WatchEntry : Type 0 where
  pub id : ℕ
  pub path : List ℕ
  pub callback : ℕ

abbrev pub Entries : Type 0
Entries = List (ℕ × WatchEntry)

-- `find`, `insert` and `erase` of the map of the entries.
unfoldable pub find_entry : ℕ → Entries → Option WatchEntry
find_entry wd [] = none
find_entry wd ((k, e) ∷ es) = if wd == k then some e else find_entry wd es

unfoldable pub insert_entry : ℕ → WatchEntry → Entries → Entries
unfolding find_entry
insert_entry wd e es = elim (find_entry wd es) [ none ↦ (wd, e) ∷ es | some old ↦ es ]

unfoldable pub erase_entry : ℕ → Entries → Entries
erase_entry wd [] = []
erase_entry wd ((k, e) ∷ es) =
    let later = erase_entry wd es in if wd == k then es else (k, e) ∷ later

-- `FileWatcher::Impl`, with the poller, the calls of callbacks, and the descriptors that were closed.
pub record Watcher : Type 0 where
  pub fd : ℕ
  pub queue : Option ℕ
  pub entries : Entries
  pub poller : AsyncQueuePoller
  pub invoked : List (ℕ × List ℕ)
  pub closed : List ℕ

-- The constructor, for the descriptor of `inotify_init1`; `none` is the exception.
unfoldable pub new_watcher : Option ℕ → AsyncQueuePoller → Option Watcher
new_watcher none poller = none
new_watcher (some fd) poller =
    some record { fd = fd; queue = none; entries = []; poller = poller; invoked = []; closed = [] }

-- `Impl::start`, with a new queue.
unfoldable pub start : ℕ → Watcher → Watcher
unfolding add_queue
start q w = record w { queue = some q; poller = add_queue q w.poller }

-- `Impl::stop` returns, throws what the future has, or waits for the future.
pub data Stopped : Type 0 where
  stopped threw : Watcher → Stopped
  waits_for : ℕ → Watcher → Stopped

unfoldable pub stop_queue : ℕ → Option ℕ → Watcher → Stopped
unfolding remove_queue
stop_queue future none w = stopped w
stop_queue future (some q) w =
    let removed = record w { poller = remove_queue q future w.poller } in
    if w.poller.running then waits_for future removed else threw removed

unfoldable pub stop : ℕ → Watcher → Stopped
unfolding stop_queue
stop future w =
    stop_queue future w.queue
      (record w { closed = if ltb 0 w.fd then w.closed ++ (w.fd ∷ []) else w.closed })

unfoldable pub add_watch : List ℕ → ℕ → Option ℕ → Watcher → Option ℕ × Watcher
unfolding insert_entry
add_watch path on_event none w = (none, w)
add_watch path on_event (some wd) w = (
  some wd,
  record w {
    entries = insert_entry wd (record { id = wd; path = path; callback = on_event }) w.entries;
  },
)

unfoldable pub remove_watch : ℕ → Bool → Watcher → Bool × Watcher
remove_watch watch_id removed w = (removed, w)

-- An `inotify_event`: its `wd`, and whether its mask has IN_IGNORED.
pub record InotifyEvent : Type 0 where
  pub wd : ℕ
  pub ignored : Bool

unfoldable pub invoke_callback : ℕ → Watcher → Watcher
unfolding find_entry
invoke_callback wd w = elim (find_entry wd w.entries) [
  | none ↦ w
  | some e ↦ record w { invoked = w.invoked ++ ((e.callback, e.path) ∷ []) }
]

unfoldable pub handle_event : InotifyEvent → Watcher → Watcher
unfolding erase_entry invoke_callback
handle_event event w =
    if event.ignored
    then record w { entries = erase_entry event.wd w.entries }
    else invoke_callback event.wd w

-- The inner loop, over the buffer.
unfoldable pub handle_buffer : List InotifyEvent → Watcher → Watcher
unfolding handle_event
handle_buffer [] w = w
handle_buffer (event ∷ events) w = handle_buffer events (handle_event event w)

-- A result of `read`: events, EAGAIN, or another error.
pub data Read : Type 0 where
  events : List InotifyEvent → Read
  again failed : Read

-- `handleEvents` returns; throws or waits in `stop`; or reads on, where no more results are given.
pub data Handled : Type 0 where
  handled : Watcher → Handled
  stop_threw : Watcher → Handled
  stop_waits : ℕ → Watcher → Handled
  reads_on : Watcher → Handled

unfoldable pub handle_events : ℕ → List Read → Watcher → Handled
unfolding handle_buffer stop
handle_events future [] w = reads_on w
handle_events future (events es ∷ reads) w = handle_events future reads (handle_buffer es w)
handle_events future (again ∷ reads) w = handled w
handle_events future (failed ∷ reads) w =
    let on = handle_events future reads in
    elim (stop future w) [
      | stopped w' ↦ on w'
      | threw w' ↦ stop_threw w'
      | waits_for f w' ↦ stop_waits f w'
    ]

-- What `poll` answers: nothing, an event that is not POLLIN, or POLLIN with the reads that follow.
pub data Polled : Type 0 where
  idle other_event : Polled
  readable : List Read → Polled

-- `NotifyQueue::pollOne`, and its count unless it does not return.
unfoldable pub poll_one : ℕ → Polled → Watcher → Handled × ℕ
unfolding handle_events
poll_one future idle w = (handled w, 0)
poll_one future other_event w = (handled w, 1)
poll_one future (readable reads) w = (handle_events future reads w, 1)

-- The calls, and the polls of the poller, one after the other; `none` is a poll that does not return.
pub data WatchStep : Type 0 where
  add_step : List ℕ → ℕ → Option ℕ → WatchStep
  remove_step : ℕ → Bool → WatchStep
  poll_step : ℕ → Polled → WatchStep

unfoldable pub take_watch_step : WatchStep → Watcher → Option Watcher
unfolding add_watch remove_watch poll_one
take_watch_step (add_step path on_event wd) w = some (add_watch path on_event wd w).1
take_watch_step (remove_step id removed) w = some (remove_watch id removed w).1
take_watch_step (poll_step future p) w = elim (poll_one future p w).0 [
  | handled w' ↦ some w'
  | _ ↦ none
]

unfoldable pub run_watcher : List WatchStep → Watcher → Option Watcher
unfolding take_watch_step
run_watcher [] w = some w
run_watcher (x ∷ xs) w = take_watch_step x w >>= λ w'. run_watcher xs w'

-- `FileWatcher`, with a poller of its own or one that is shared.
pub record FileWatcher : Type 0 where
  pub own_poller : Bool
  pub impl : Watcher

-- `FileWatcher::start`; `none` is the end of the program.
unfoldable pub start_file_watcher : ℕ → FileWatcher → Option FileWatcher
unfolding start Poller.start
start_file_watcher q f =
    (if f.own_poller then Poller.start f.impl.poller else some f.impl.poller) >>= λ poller.
    some (record f { impl = start q (record f.impl { poller = poller }) })

-- `FileWatcher::stop`, where `Impl::stop` is over: its own poller is stopped, unless that has thrown.
unfoldable pub stop_file_watcher : Bool → FileWatcher → FileWatcher
unfolding Poller.stop
stop_file_watcher has_thrown f =
    if has_thrown
    then f
    else if f.own_poller
    then record f { impl = record f.impl { poller = Poller.stop f.impl.poller } }
    else f
