-- ===== src/Poller/Delivery.antt =====
-- What becomes of the events that are pushed to polled queues.
use logpp.Common.{
  ℕ, ◌≡◌, refl, ◌∙◌, ap, sym, Bool, true, false, Option, none, some, List, [], ◌∷◌, ◌++◌,
  append-nil, append_assoc, length, if◌then◌else◌, ◌==◌, arith, Bool-cases, inl, inr,
}
use logpp.Poller.{
  add_action, remove_action, Entry, stop_entry, queue_entry, AsyncQueuePoller, contains, erase,
  poll_loop, poll, push, set_value, handle_queue, handle_entry, handle_entries, poll_queues, round,
  stop, add_queue, remove_queue, Step, start_step, stop_step, round_step, add_step, remove_step,
  push_step, take_step, run,
}

-- The events of a queue.
unfoldable pub events_of : ℕ → List (ℕ × ℕ) → List ℕ
events_of q [] = []
events_of q ((r, e) ∷ l) = let later = events_of q l in if r == q then e ∷ later else later

-- The events of a queue that have been delivered, and those that are still in it.
abbrev pub history : ℕ → AsyncQueuePoller → List ℕ
history q s = events_of q s.delivered ++ s.pending q

-- The events that steps push to a queue.
unfoldable pub pushed : ℕ → List Step → List ℕ
pushed q [] = []
pushed q (push_step r e ∷ xs) = let later = pushed q xs in if r == q then e ∷ later else later
pushed q (start_step ∷ xs) = pushed q xs
pushed q (stop_step ∷ xs) = pushed q xs
pushed q (round_step ∷ xs) = pushed q xs
pushed q (add_step r ∷ xs) = pushed q xs
pushed q (remove_step r f ∷ xs) = pushed q xs

events_of-append :
    (q : ℕ) (l k : List (ℕ × ℕ)) → events_of q (l ++ k) ≡ events_of q l ++ events_of q k
unfolding events_of
events_of-append q [] k = refl
events_of-append q ((r, e) ∷ l) k = elim (Bool-cases (r == q)) [
  | inl h ↦ rw (h, events_of-append q l k) refl
  | inr h ↦ rw (h, events_of-append q l k) refl
]

events_of-poll_loop-same :
    (q : ℕ) (es : List ℕ) (l : List (ℕ × ℕ)) → events_of q (poll_loop q es l) ≡ events_of q l ++ es
unfolding poll_loop events_of
events_of-poll_loop-same q [] l = sym (append-nil (events_of q l))
events_of-poll_loop-same q (e ∷ es) l =
    rw
      (
        events_of-poll_loop-same q es (l ++ ((q, e) ∷ [])),
        events_of-append q l ((q, e) ∷ []),
        same_number,
      )
      (append_assoc (events_of q l) (e ∷ []) es)
  where
    same_number : (q == q) ≡ true
    same_number = ground arith

events_of-poll_loop-other :
    (q r : ℕ) (es : List ℕ) (l : List (ℕ × ℕ))
    → (r == q) ≡ false
    → events_of q (poll_loop r es l) ≡ events_of q l
unfolding poll_loop events_of
events_of-poll_loop-other q r [] l h = refl
events_of-poll_loop-other q r (e ∷ es) l h =
    rw
      (
        events_of-poll_loop-other q r es (l ++ ((r, e) ∷ [])) h,
        events_of-append q l ((r, e) ∷ []),
        h,
      )
      (append-nil (events_of q l))

history-poll : (q r : ℕ) (s : AsyncQueuePoller) → history q (poll r s) ≡ history q s
unfolding poll
history-poll q r s = elim (Bool-cases (r == q)) [
  | inl h ↦
      let e : r ≡ q = ground arith in
      let same_number : (q == q) ≡ true = ground arith in
      rw (e, events_of-poll_loop-same q (s.pending q) s.delivered, same_number)
        (append-nil (events_of q s.delivered ++ s.pending q))
  | inr h ↦
      let other : (q == r) ≡ false = ground (arith, h) in
      rw (events_of-poll_loop-other q r (s.pending r) s.delivered h, other) refl
]

history-set_value :
    (q : ℕ) (p c : Option ℕ) (s : AsyncQueuePoller) → history q (set_value p c s) ≡ history q s
unfolding set_value
history-set_value q none c s = refl
history-set_value q (some f) c s = refl

history-handle_entry :
    (q : ℕ) (e : Entry) (s : AsyncQueuePoller) → history q (handle_entry e s) ≡ history q s
unfolding handle_entry handle_queue
history-handle_entry q stop_entry s = refl
history-handle_entry q (queue_entry r add_action p) s = elim (Bool-cases (contains r s.queues)) [
  | inl h ↦ rw h refl
  | inr h ↦ rw h refl
]
history-handle_entry q (queue_entry r remove_action p) s = elim (Bool-cases (contains r s.queues)) [
  | inl h ↦ rw h (
      history-set_value q p (some (length (s.pending r)))
        (record (poll r s) { queues = erase r s.queues })
      ∙ history-poll q r s)
  | inr h ↦ rw h (history-set_value q p (some 0) s)
]

history-handle_entries :
    (q : ℕ) (es : List Entry) (s : AsyncQueuePoller) → history q (handle_entries es s) ≡ history q s
unfolding handle_entries
history-handle_entries q [] s = refl
history-handle_entries q (e ∷ es) s =
    history-handle_entries q es (handle_entry e s) ∙ history-handle_entry q e s

history-poll_queues :
    (q : ℕ) (qs : List ℕ) (s : AsyncQueuePoller) → history q (poll_queues qs s) ≡ history q s
unfolding poll_queues
history-poll_queues q [] s = refl
history-poll_queues q (r ∷ qs) s = history-poll_queues q qs (poll r s) ∙ history-poll q r s

history-if :
    (q : ℕ) (b : Bool) (s t : AsyncQueuePoller) (l : List ℕ)
    → history q s ≡ l
    → history q t ≡ l
    → history q (if b then s else t) ≡ l
history-if q true s t l h g = h
history-if q false s t l h g = g

pub history-round : (q : ℕ) (s : AsyncQueuePoller) → history q (round s) ≡ history q s
unfolding round
history-round q s =
    history-if q s.alive _ s (history q s)
      (history-poll_queues q
          (handle_entries s.internal_queue (record s { internal_queue = [] })).queues
          (handle_entries s.internal_queue (record s { internal_queue = [] }))
        ∙ history-handle_entries q s.internal_queue (record s { internal_queue = [] }))
      refl

pub history-push :
    (q r e : ℕ) (s : AsyncQueuePoller)
    → history q (push r e s) ≡ history q s ++ pushed q (push_step r e ∷ [])
unfolding push pushed
history-push q r e s = elim (Bool-cases (r == q)) [
  | inl h ↦
      let flipped : (q == r) ≡ true = ground (arith, h) in
      rw (h, flipped) (sym (append_assoc (events_of q s.delivered) (s.pending q) (e ∷ [])))
  | inr h ↦
      let flipped : (q == r) ≡ false = ground (arith, h) in
      rw (h, flipped) (sym (append-nil (events_of q s.delivered ++ s.pending q)))
]

pushed-cons :
    (q : ℕ) (x : Step) (xs : List Step) → pushed q (x ∷ xs) ≡ pushed q (x ∷ []) ++ pushed q xs
unfolding pushed
pushed-cons q (push_step r e) xs = elim (Bool-cases (r == q)) [
  | inl h ↦ rw h refl
  | inr h ↦ rw h refl
]
pushed-cons q start_step xs = refl
pushed-cons q stop_step xs = refl
pushed-cons q round_step xs = refl
pushed-cons q (add_step r) xs = refl
pushed-cons q (remove_step r f) xs = refl

-- No step starts the poller.
abbrev pub NeverStarts : List Step → Type 0
NeverStarts [] = Unit
NeverStarts (start_step ∷ xs) = ⊥
NeverStarts (stop_step ∷ xs) = NeverStarts xs
NeverStarts (round_step ∷ xs) = NeverStarts xs
NeverStarts (add_step r ∷ xs) = NeverStarts xs
NeverStarts (remove_step r f ∷ xs) = NeverStarts xs
NeverStarts (push_step r e ∷ xs) = NeverStarts xs

pub history-stop : (q : ℕ) (s : AsyncQueuePoller) → history q (stop s) ≡ history q s
unfolding stop
history-stop q s = elim (Bool-cases s.running) [ inl h ↦ rw h refl | inr h ↦ rw h refl ]

history-remove_queue :
    (q r f : ℕ) (s : AsyncQueuePoller) → history q (remove_queue r f s) ≡ history q s
unfolding remove_queue
history-remove_queue q r f s = elim (Bool-cases s.running) [
  | inl h ↦ rw h refl
  | inr h ↦ rw h (history-set_value q (some f) none s)
]

pub take_step-history :
    (q : ℕ) (x : Step) (s : AsyncQueuePoller)
    → NeverStarts (x ∷ [])
    → (s' : AsyncQueuePoller) × (take_step x s ≡ some s')
      × (history q s' ≡ history q s ++ pushed q (x ∷ []))
unfolding take_step pushed add_queue
take_step-history q start_step s n = absurd n
take_step-history q stop_step s n =
    (stop s, refl, history-stop q s ∙ sym (append-nil (history q s)))
take_step-history q round_step s n =
    (round s, refl, history-round q s ∙ sym (append-nil (history q s)))
take_step-history q (add_step r) s n = (add_queue r s, refl, sym (append-nil (history q s)))
take_step-history q (remove_step r f) s n =
    (remove_queue r f s, refl, history-remove_queue q r f s ∙ sym (append-nil (history q s)))
take_step-history q (push_step r e) s n = (push r e s, refl, history-push q r e s)

pub NeverStarts-split :
    (x : Step) (xs : List Step) → NeverStarts (x ∷ xs) → NeverStarts (x ∷ []) × NeverStarts xs
NeverStarts-split start_step xs n = absurd n
NeverStarts-split stop_step xs n = (tt, n)
NeverStarts-split round_step xs n = (tt, n)
NeverStarts-split (add_step r) xs n = (tt, n)
NeverStarts-split (remove_step r f) xs n = (tt, n)
NeverStarts-split (push_step r e) xs n = (tt, n)

-- Whatever the other steps are, and whenever queues are added and removed: steps that do not start the
-- poller succeed, and for each queue, what has been delivered from it, followed by what is still in it,
-- grows by exactly what the steps push to it. So each event is delivered once at most, in order.
pub run-history :
    (q : ℕ) (xs : List Step) (s : AsyncQueuePoller)
    → NeverStarts xs
    → (s' : AsyncQueuePoller) × (run xs s ≡ some s') × (history q s' ≡ history q s ++ pushed q xs)
unfolding run pushed
run-history q [] s n = (s, refl, sym (append-nil (history q s)))
run-history q (x ∷ xs) s n =
    let one = take_step-history q x s (NeverStarts-split x xs n).0 in
    let rest = run-history q xs one.0 (NeverStarts-split x xs n).1 in
    (
      rest.0,
      rw one.1 rest.1,
      rest.2
          ∙ ap (λ l. l ++ pushed q xs) one.2
          ∙ append_assoc (history q s) (pushed q (x ∷ [])) (pushed q xs)
          ∙ ap (λ l. history q s ++ l) (sym (pushed-cons q x xs)),
    )
