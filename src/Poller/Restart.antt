-- ===== src/Poller/Restart.antt =====
-- A poller that is started again after it has been stopped.
use logpp.Common.{
  ℕ, ◌≡◌, ◌≢◌, refl, ◌∙◌, Bool, true, false, Option, none, some, List, [], ◌∷◌, ◌++◌, length,
  if◌then◌else◌, Bool-cases, inl, inr,
}
use logpp.Poller.{
  add_action, remove_action, Entry, stop_entry, queue_entry, AsyncQueuePoller, contains, erase,
  poll, push, set_value, handle_queue, handle_entry, handle_entries, poll_queues, round, start,
  stop, add_queue, remove_queue, Step, start_step, stop_step, round_step, add_step, remove_step,
  push_step, take_step, run,
}
use logpp.Poller.Delivery.{NeverStarts, NeverStarts-split}

joinable-if :
    (b : Bool) (s t : AsyncQueuePoller) (j : Bool)
    → s.joinable ≡ j
    → t.joinable ≡ j
    → (if b then s else t).joinable ≡ j
joinable-if true s t j h g = h
joinable-if false s t j h g = g

joinable-set_value :
    (p c : Option ℕ) (s : AsyncQueuePoller) → (set_value p c s).joinable ≡ s.joinable
unfolding set_value
joinable-set_value none c s = refl
joinable-set_value (some f) c s = refl

joinable-handle_entry :
    (e : Entry) (s : AsyncQueuePoller) → (handle_entry e s).joinable ≡ s.joinable
unfolding handle_entry handle_queue poll
joinable-handle_entry stop_entry s = refl
joinable-handle_entry (queue_entry q add_action p) s =
    joinable-if (contains q s.queues) s (record s { queues = s.queues ++ (q ∷ []) }) s.joinable refl
      refl
joinable-handle_entry (queue_entry q remove_action p) s =
    joinable-if (contains q s.queues) _ (set_value p (some 0) s) s.joinable
      (joinable-set_value p (some (length (s.pending q)))
        (record (poll q s) { queues = erase q s.queues }))
      (joinable-set_value p (some 0) s)

joinable-handle_entries :
    (es : List Entry) (s : AsyncQueuePoller) → (handle_entries es s).joinable ≡ s.joinable
unfolding handle_entries
joinable-handle_entries [] s = refl
joinable-handle_entries (e ∷ es) s =
    joinable-handle_entries es (handle_entry e s) ∙ joinable-handle_entry e s

joinable-poll_queues :
    (qs : List ℕ) (s : AsyncQueuePoller) → (poll_queues qs s).joinable ≡ s.joinable
unfolding poll_queues poll
joinable-poll_queues [] s = refl
joinable-poll_queues (q ∷ qs) s = joinable-poll_queues qs (poll q s)

joinable-round : (s : AsyncQueuePoller) → (round s).joinable ≡ s.joinable
unfolding round
joinable-round s =
    joinable-if s.alive _ s s.joinable
      (joinable-poll_queues
          (handle_entries s.internal_queue (record s { internal_queue = [] })).queues
          (handle_entries s.internal_queue (record s { internal_queue = [] }))
        ∙ joinable-handle_entries s.internal_queue (record s { internal_queue = [] }))
      refl

take_step-joinable :
    (x : Step) (s : AsyncQueuePoller)
    → NeverStarts (x ∷ [])
    → (s' : AsyncQueuePoller) × (take_step x s ≡ some s') × (s'.joinable ≡ s.joinable)
unfolding take_step stop add_queue remove_queue push
take_step-joinable start_step s n = absurd n
take_step-joinable stop_step s n = (stop s, refl, joinable-if s.running _ s s.joinable refl refl)
take_step-joinable round_step s n = (round s, refl, joinable-round s)
take_step-joinable (add_step q) s n = (add_queue q s, refl, refl)
take_step-joinable (remove_step q f) s n = (
  remove_queue q f s,
  refl,
  joinable-if s.running _ (set_value (some f) none s) s.joinable refl
      (joinable-set_value (some f) none s),
)
take_step-joinable (push_step q e) s n = (push q e s, refl, refl)

start-stop : (s : AsyncQueuePoller) → s.joinable ≡ true → start (stop s) ≡ none
unfolding start stop
start-stop s j = elim (Bool-cases s.running) [ inl r ↦ rw (r, j) refl | inr r ↦ rw (r, j) refl ]

-- A poller that has been started, so that its thread is joinable: whatever steps follow that do not
-- start it, to stop it and to start it again assigns to the joinable thread, which terminates the
-- program; and it is that start which does it.
pub run-restart :
    (xs : List Step) (s : AsyncQueuePoller)
    → s.joinable ≡ true
    → NeverStarts xs
    → (run (xs ++ (stop_step ∷ start_step ∷ [])) s ≡ none) × (run (xs ++ (stop_step ∷ [])) s ≢ none)
unfolding run take_step
run-restart [] s j n = (rw (start-stop s j) refl, λ e. cc)
run-restart (x ∷ xs) s j n =
    let one = take_step-joinable x s (NeverStarts-split x xs n).0 in
    let rest = run-restart xs one.0 (one.2 ∙ j) (NeverStarts-split x xs n).1 in
    (rw one.1 rest.0, rw one.1 rest.1)
