-- ===== src/Watcher/Deadlock.antt =====
-- A read that fails within a poll.
use logpp.Common.{
  ℕ, ◌≡◌, refl, true, false, ◌∙◌, ap, arith, if◌then◌else◌, ltb, ◌==◌, Option, none, some, List, [],
  ◌∷◌, ◌++◌, map, Bool-cases, inl, inr,
}
use logpp.Poller
use logpp.Poller.{
  remove_queue, add_queue, set_value, AsyncQueuePoller, Step, start_step, stop_step, round_step,
  add_step, remove_step, push_step, take_step, run,
}
use logpp.Watcher.{
  Watcher, InotifyEvent, invoke_callback, handle_event, handle_buffer, Read, events, failed,
  stop_waits, handle_events, poll_one, readable, stop, stop_queue, threw, waits_for,
}

-- Handling an event leaves the poller alone.
handle_event-poller :
    (e : InotifyEvent) (w : Watcher)
    → ((handle_event e w).poller ≡ w.poller) × ((handle_event e w).queue ≡ w.queue)
unfolding handle_event invoke_callback
handle_event-poller e w = (ground arith, ground arith)

handle_buffer-poller :
    (es : List InotifyEvent) (w : Watcher)
    → ((handle_buffer es w).poller ≡ w.poller) × ((handle_buffer es w).queue ≡ w.queue)
unfolding handle_buffer
handle_buffer-poller [] w = (refl, refl)
handle_buffer-poller (e ∷ es) w =
    let later = handle_buffer-poller es (handle_event e w) in
    let now = handle_event-poller e w in (later.0 ∙ now.0, later.1 ∙ now.1)

-- The watcher that waits for the removal of its queue.
abbrev waiting : ℕ → ℕ → Watcher → Watcher
unfolding remove_queue
waiting future q w = record w {
  closed = if ltb 0 w.fd then w.closed ++ (w.fd ∷ []) else w.closed;
  poller = remove_queue q future w.poller;
}

stop-waits :
    (future q : ℕ) (w : Watcher)
    → w.queue ≡ some q
    → w.poller.running ≡ true
    → stop future w ≡ waits_for future (waiting future q w)
unfolding stop stop_queue waiting
stop-waits future q w h r =
    ap
      (λ o.
        stop_queue future o
          (record w { closed = if ltb 0 w.fd then w.closed ++ (w.fd ∷ []) else w.closed }))
      h
    ∙ ap (λ b. if b then waits_for future (waiting future q w) else threw (waiting future q w)) r

remove_queue-promises :
    (future q : ℕ) (p : AsyncQueuePoller)
    → p.running ≡ true
    → (remove_queue q future p).promises ≡ p.promises
unfolding remove_queue set_value
remove_queue-promises future q p r = ground (arith, r)

-- handleEvents waits in stop after a read that fails, and no future has been given anything by then.
handle_events-stuck :
    (future q : ℕ) (es : List (List InotifyEvent)) (reads : List Read) (w : Watcher)
    → w.queue ≡ some q
    → w.poller.running ≡ true
    → (w' : Watcher) × (handle_events future (map events es ++ (failed ∷ reads)) w
        ≡ stop_waits future w')
      × (w'.poller.promises ≡ w.poller.promises)
unfolding handle_events
handle_events-stuck future q [] reads w h r = (
  waiting future q w,
  rw (handle_events, stop-waits future q w h r) refl,
  remove_queue-promises future q w.poller r,
)
handle_events-stuck future q (e ∷ es) reads w h r =
    let p = handle_buffer-poller e w in
    let (w', eq, m) =
      handle_events-stuck future q es reads (handle_buffer e w) (p.1 ∙ h)
        (ap (λ s. s.running) p.0 ∙ r) in
    (w', eq, m ∙ ap (λ s. s.promises) p.0)

-- What a future has been given.
abbrev pub answers : ℕ → List (ℕ × Option ℕ) → List (Option ℕ)
answers future [] = []
answers future ((f, c) ∷ ps) =
    let later = answers future ps in if f == future then c ∷ later else later

answers-other :
    (future f : ℕ) (c : Option ℕ) (ps : List (ℕ × Option ℕ))
    → (f == future) ≡ false
    → answers future (ps ++ ((f, c) ∷ [])) ≡ answers future ps
answers-other future f c [] h = rw h refl
answers-other future f c ((g, d) ∷ ps) h =
    ap (λ later. if g == future then d ∷ later else later) (answers-other future f c ps h)

-- Calls that other threads make: no round, since the thread of the rounds waits, and no start; the future
-- of a removal is another one.
abbrev pub AllOthers : ℕ → List Step → Type 0
AllOthers future [] = Unit {0}
AllOthers future (start_step ∷ xs) = ⊥
AllOthers future (round_step ∷ xs) = ⊥
AllOthers future (stop_step ∷ xs) = AllOthers future xs
AllOthers future (add_step q ∷ xs) = AllOthers future xs
AllOthers future (remove_step q f ∷ xs) = ((f == future) ≡ false) × AllOthers future xs
AllOthers future (push_step q e ∷ xs) = AllOthers future xs

stop-answers : (p : AsyncQueuePoller) → (Poller.stop p).promises ≡ p.promises
unfolding Poller.stop
stop-answers p = ground arith

remove_queue-answers :
    (future q f : ℕ) (p : AsyncQueuePoller)
    → (f == future) ≡ false
    → answers future (remove_queue q f p).promises ≡ answers future p.promises
unfolding remove_queue set_value
remove_queue-answers future q f p h = elim (Bool-cases p.running) [
  | inl e ↦ rw e refl
  | inr e ↦ rw e (answers-other future f none p.promises h)
]

run-answers :
    (future : ℕ) (xs : List Step) (p : AsyncQueuePoller)
    → AllOthers future xs
    → (p' : AsyncQueuePoller) × (run xs p ≡ some p')
      × (answers future p'.promises ≡ answers future p.promises)
unfolding run take_step
run-answers future [] p o = (p, refl, refl)
run-answers future (start_step ∷ xs) p o = absurd o
run-answers future (round_step ∷ xs) p o = absurd o
run-answers future (stop_step ∷ xs) p o =
    let rest = run-answers future xs (Poller.stop p) o in
    (rest.0, rest.1, rest.2 ∙ ap (answers future) (stop-answers p))
run-answers future (add_step q ∷ xs) p o =
    let rest = run-answers future xs (add_queue q p) o in
    (rest.0, rest.1, rest.2 ∙ (unfold add_queue in refl))
run-answers future (remove_step q f ∷ xs) p (other, o) =
    let rest = run-answers future xs (remove_queue q f p) o in
    (rest.0, rest.1, rest.2 ∙ remove_queue-answers future q f p other)
run-answers future (push_step q e ∷ xs) p o =
    let rest = run-answers future xs (Poller.push q e p) o in
    (rest.0, rest.1, rest.2 ∙ (unfold Poller.push in refl))

-- Where the poller runs, the watcher has its queue, and a read fails after any number of reads that give
-- events: the call of pollOne that reads them waits in stop for a future. From there, whatever calls on
-- the poller follow but starts and rounds (stops, additions of queues, removals of queues for other
-- futures, and pushes), they succeed, and the future is given nothing.
pub poll_one-waits :
    (future q : ℕ) (es : List (List InotifyEvent)) (reads : List Read) (w : Watcher)
    (others : List Step)
    → w.queue ≡ some q
    → w.poller.running ≡ true
    → AllOthers future others
    → (w' : Watcher) × (p : AsyncQueuePoller) × (poll_one future
          (readable (map events es ++ (failed ∷ reads)))
          w
        ≡ (stop_waits future w', 1))
      × (run others w'.poller ≡ some p)
      × (answers future p.promises ≡ answers future w.poller.promises)
unfolding poll_one
poll_one-waits future q es reads w others h r o =
    let (w', eq, m) = handle_events-stuck future q es reads w h r in
    let (p, ran, same) = run-answers future others w'.poller o in
    (w', p, rw eq refl, ran, same ∙ ap (answers future) m)
