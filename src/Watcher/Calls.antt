-- ===== src/Watcher/Calls.antt =====
-- Which callbacks a watcher calls, from the history of its calls and events.
use logpp.Common.{
  ℕ, ◌≡◌, refl, sym, ap, subst, Bool, true, false, Option, none, some, List, [], ◌∷◌, ◌++◌,
  if◌then◌else◌, ◌==◌, Bool-cases, Option-cases, inl, inr, ◌∙◌,
}
use logpp.Poller.{AsyncQueuePoller}
use logpp.Watcher.{
  WatchEntry, find_entry, erase_entry, Watcher, new_watcher, start, add_watch, remove_watch,
  InotifyEvent, invoke_callback, handle_event, handle_buffer, Read, events, again, failed, handled,
  handle_events, idle, other_event, readable, poll_one, WatchStep, add_step, remove_step, poll_step,
  take_watch_step, run_watcher,
}
use logpp.Watcher.History.{
  News, watching, event, watched, calls, news_of_events, news_of_reads, news, Reads, NeverFails,
}
use logpp.Watcher.Entries.{IsMap, IsMap-erase, find_entry-erase, find_entry-insert, IsMap-insert}

abbrev call_of : Option WatchEntry → Option (ℕ × List ℕ)
call_of none = none
call_of (some e) = some (e.callback, e.path)

-- The state of a watcher after its news.
record Follows (w : Watcher) (past : List News) : Type 0 where
  pub is_map : IsMap w.entries
  pub finds : (wd : ℕ) → call_of (find_entry wd w.entries) ≡ watched past wd
  pub called : w.invoked ≡ calls past

call_of-else :
    (o : Option WatchEntry) (b : Bool) (e : WatchEntry)
    → call_of (elim o [ some old ↦ some old | none ↦ if b then some e else none ])
      ≡ elim (call_of o) [ some c ↦ some c | none ↦ if b then some (e.callback, e.path) else none ]
call_of-else none true e = refl
call_of-else none false e = refl
call_of-else (some old) b e = refl

call_of-if :
    (b : Bool) (o : Option WatchEntry)
    → call_of (if b then none else o) ≡ (if b then none else call_of o)
call_of-if true o = refl
call_of-if false o = refl

handle_event-ignored :
    (e : InotifyEvent) (w : Watcher)
    → e.ignored ≡ true
    → handle_event e w ≡ record w { entries = erase_entry e.wd w.entries }
unfolding handle_event
handle_event-ignored e w i = rw (handle_event, i) refl

handle_event-unwatched :
    (e : InotifyEvent) (w : Watcher)
    → e.ignored ≡ false
    → find_entry e.wd w.entries ≡ none
    → handle_event e w ≡ w
unfolding handle_event invoke_callback
handle_event-unwatched e w i n = rw (handle_event, i, invoke_callback, n) refl

handle_event-called :
    (e : InotifyEvent) (w : Watcher) (x : WatchEntry)
    → e.ignored ≡ false
    → find_entry e.wd w.entries ≡ some x
    → handle_event e w ≡ record w { invoked = w.invoked ++ ((x.callback, x.path) ∷ []) }
unfolding handle_event invoke_callback
handle_event-called e w x i n = rw (handle_event, i, invoke_callback, n) refl

module _ (w : Watcher) (past : List News) (f : Follows w past) where
  Follows-add :
      (path : List ℕ) (callback wd : ℕ)
      → Follows (add_watch path callback (some wd) w).1 (watching wd path callback ∷ past)
  unfolding add_watch watched calls
  Follows-add path callback wd = record {
    is_map = IsMap-insert w.entries wd _ f.is_map;
    finds = λ k.
        rw
          (
            find_entry-insert w.entries k wd (record { id = wd; path = path; callback = callback }),
            call_of-else (find_entry k w.entries) (k == wd)
                (record { id = wd; path = path; callback = callback }),
            f.finds k,
          )
          refl;
    called = f.called;
  }

  Follows-ignored :
      (e : InotifyEvent)
      → e.ignored ≡ true
      → Follows (record w { entries = erase_entry e.wd w.entries }) (event e ∷ past)
  unfolding watched calls
  Follows-ignored e i = record {
    is_map = IsMap-erase w.entries e.wd f.is_map;
    finds = λ k.
        rw
          (
            find_entry-erase w.entries k e.wd f.is_map,
            call_of-if (k == e.wd) (find_entry k w.entries),
            f.finds k,
            i,
          )
          refl;
    called = rw i f.called;
  }

  Follows-unwatched :
      (e : InotifyEvent) → e.ignored ≡ false → watched past e.wd ≡ none → Follows w (event e ∷ past)
  unfolding watched calls
  Follows-unwatched e i n = record {
    is_map = f.is_map;
    finds = λ k. rw i (f.finds k);
    called = rw (i, n) f.called;
  }

  Follows-called :
      (e : InotifyEvent) (c : ℕ × List ℕ)
      → e.ignored ≡ false
      → watched past e.wd ≡ some c
      → Follows (record w { invoked = w.invoked ++ (c ∷ []) }) (event e ∷ past)
  unfolding watched calls
  Follows-called e c i n = record {
    is_map = f.is_map;
    finds = λ k. rw i (f.finds k);
    called = rw (i, n, f.called) refl;
  }

  Follows-event : (e : InotifyEvent) → Follows (handle_event e w) (event e ∷ past)
  Follows-event e = elim (Bool-cases e.ignored) [
    | inl i ↦ after e (handle_event-ignored e w i) (Follows-ignored e i)
    | inr i ↦ elim (Option-cases (find_entry e.wd w.entries)) [
      | inl n ↦
          after e (handle_event-unwatched e w i n)
            (Follows-unwatched e i (sym (f.finds e.wd) ∙ ap call_of n))
      | inr (x, n) ↦
          after e (handle_event-called e w x i n)
            (Follows-called e (x.callback, x.path) i (sym (f.finds e.wd) ∙ ap call_of n))
    ]
  ]
    where
      after :
          (e : InotifyEvent) {v v' : Watcher}
          → v ≡ v'
          → Follows v' (event e ∷ past)
          → Follows v (event e ∷ past)
      after e p g = subst (λ u. Follows u (event e ∷ past)) (sym p) g

Follows-start :
    (fd q : ℕ) (poller : AsyncQueuePoller) (w : Watcher)
    → new_watcher (some fd) poller ≡ some w
    → Follows (start q w) []
unfolding new_watcher start watched calls find_entry
Follows-start fd q poller w e =
    subst (λ v. Follows (start q v) []) made
      (record { is_map = tt; finds = λ k. refl; called = refl })
  where
    initial : Watcher
    initial = record {
      fd = fd;
      queue = none;
      entries = [];
      poller = poller;
      invoked = [];
      closed = [];
    }

    made : initial ≡ w
    made = cc

Follows-buffer :
    (es : List InotifyEvent) (w : Watcher) (past : List News)
    → Follows w past
    → Follows (handle_buffer es w) (news_of_events es past)
unfolding handle_buffer
Follows-buffer [] w past f = f
Follows-buffer (e ∷ es) w past f =
    Follows-buffer es (handle_event e w) (event e ∷ past) (Follows-event w past f e)

handle_events-Follows :
    (future : ℕ) (reads : List Read) (w : Watcher) (past : List News)
    → Reads reads
    → Follows w past
    → (w' : Watcher) × (handle_events future reads w ≡ handled w')
      × Follows w' (news_of_reads reads past)
unfolding handle_events
handle_events-Follows future [] w past h f = absurd h
handle_events-Follows future (events es ∷ reads) w past h f =
    handle_events-Follows future reads (handle_buffer es w) (news_of_events es past) h
      (Follows-buffer es w past f)
handle_events-Follows future (again ∷ reads) w past h f = (w, refl, f)
handle_events-Follows future (failed ∷ reads) w past h f = absurd h

run_watcher-Follows :
    (xs : List WatchStep) (w : Watcher) (past : List News)
    → NeverFails xs
    → Follows w past
    → (w' : Watcher) × (run_watcher xs w ≡ some w') × Follows w' (news xs past)
unfolding run_watcher take_watch_step poll_one remove_watch
run_watcher-Follows [] w past h f = (w, refl, f)
run_watcher-Follows (add_step path callback none ∷ xs) w past h f =
    run_watcher-Follows xs w past h f
run_watcher-Follows (add_step path callback (some wd) ∷ xs) w past h f =
    run_watcher-Follows xs (add_watch path callback (some wd) w).1
      (watching wd path callback ∷ past) h (Follows-add w past f path callback wd)
run_watcher-Follows (remove_step id removed ∷ xs) w past h f = run_watcher-Follows xs w past h f
run_watcher-Follows (poll_step future idle ∷ xs) w past h f = run_watcher-Follows xs w past h f
run_watcher-Follows (poll_step future other_event ∷ xs) w past h f =
    run_watcher-Follows xs w past h f
run_watcher-Follows (poll_step future (readable reads) ∷ xs) w past (r, h) f =
    let (w1, e1, f1) = handle_events-Follows future reads w past r f in
    let (w2, e2, f2) = run_watcher-Follows xs w1 (news_of_reads reads past) h f1 in
    (w2, rw (run_watcher, take_watch_step, poll_one, e1) e2, f2)

-- From a watcher that has been made and started, with the descriptor of inotify: whatever the calls of
-- addWatch and removeWatch and the polls of the poller, if reads end in EAGAIN and do not fail, every
-- poll returns. The callbacks called are, for each event of the system without IN_IGNORED, in order, the
-- one that addWatch was first given for the descriptor of the event, with its path, since the last event
-- with IN_IGNORED for that descriptor; an event of another descriptor calls none.
pub run_watcher-calls :
    (fd q : ℕ) (poller : AsyncQueuePoller) (w : Watcher) (xs : List WatchStep)
    → new_watcher (some fd) poller ≡ some w
    → NeverFails xs
    → (w' : Watcher) × (run_watcher xs (start q w) ≡ some w') × (w'.invoked ≡ calls (news xs []))
run_watcher-calls fd q poller w xs e h =
    let (w', r, f) = run_watcher-Follows xs (start q w) [] h (Follows-start fd q poller w e) in
    (w', r, f.called)
