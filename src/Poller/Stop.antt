-- ===== src/Poller/Stop.antt =====
-- The last round of the poller's thread.
use logpp.Common.{
  ℕ, ◌≡◌, refl, ◌∙◌, ap, sym, subst, true, false, not, List, [], ◌∷◌, ◌++◌, append-nil,
  if◌then◌else◌, ◌==◌, arith, Bool-cases, inl, inr,
}
use logpp.Poller.{
  Entry, stop_entry, AsyncQueuePoller, contains, poll, handle_entry, handle_entries, poll_queues,
  round, stop,
}
use logpp.Poller.Delivery.{history, events_of, history-round, history-stop}

poll_queues-stop_signal :
    (qs : List ℕ) (s : AsyncQueuePoller) → (poll_queues qs s).stop_signal ≡ s.stop_signal
unfolding poll_queues poll
poll_queues-stop_signal [] s = refl
poll_queues-stop_signal (r ∷ qs) s = poll_queues-stop_signal qs (poll r s)

poll_queues-queues : (qs : List ℕ) (s : AsyncQueuePoller) → (poll_queues qs s).queues ≡ s.queues
unfolding poll_queues poll
poll_queues-queues [] s = refl
poll_queues-queues (r ∷ qs) s = poll_queues-queues qs (poll r s)

poll_queues-empty :
    (q : ℕ) (qs : List ℕ) (s : AsyncQueuePoller)
    → s.pending q ≡ []
    → (poll_queues qs s).pending q ≡ []
unfolding poll_queues poll
poll_queues-empty q [] s h = h
poll_queues-empty q (r ∷ qs) s h = poll_queues-empty q qs (poll r s) still
  where
    still : (if q == r then [] else s.pending q) ≡ []
    still = elim (Bool-cases (q == r)) [ inl e ↦ rw e refl | inr e ↦ rw e h ]

poll_queues-drains :
    (q : ℕ) (qs : List ℕ) (s : AsyncQueuePoller)
    → contains q qs ≡ true
    → (poll_queues qs s).pending q ≡ []
unfolding poll_queues poll contains
poll_queues-drains q [] s h = absurd (ground arith)
poll_queues-drains q (r ∷ qs) s h = elim (Bool-cases (r == q)) [
  | inl e ↦
      let flipped : (q == r) ≡ true = ground (arith, e) in
      poll_queues-empty q qs (poll r s) (rw flipped refl)
  | inr e ↦ poll_queues-drains q qs (poll r s) (later e)
]
  where
    later : (r == q) ≡ false → contains q qs ≡ true
    later e = subst (λ b. (if b then true else contains q qs) ≡ true) e h

handle_entries-stop :
    (es : List Entry) (s : AsyncQueuePoller)
    → (handle_entries (es ++ (stop_entry ∷ [])) s).stop_signal ≡ true
unfolding handle_entries handle_entry
handle_entries-stop [] s = refl
handle_entries-stop (e ∷ es) s = handle_entries-stop es (handle_entry e s)

-- After `stop` on a poller that runs, the next round of its thread is the last one; and when it ends,
-- each queue that the poller still has is empty, and all that was ever pushed to it and had not been
-- delivered before has been delivered, in order.
pub round-stop :
    (q : ℕ) (s : AsyncQueuePoller)
    → s.running ≡ true
    → s.alive ≡ true
    → contains q (round (stop s)).queues ≡ true
    → ((round (stop s)).alive ≡ false)
      × ((round (stop s)).pending q ≡ [])
      × (events_of q (round (stop s)).delivered ≡ history q s)
unfolding round stop
round-stop q s running alive has = (ended, drained, all)
  where
    polled : AsyncQueuePoller
    polled =
        handle_entries (s.internal_queue ++ (stop_entry ∷ []))
          (record s { running = false; internal_queue = [] })

    round_eq : round (stop s) ≡ record (poll_queues polled.queues polled) {
      alive = not (poll_queues polled.queues polled).stop_signal;
    }
    round_eq = rw (running, alive) refl

    ended : (round (stop s)).alive ≡ false
    ended =
        ap (λ t. t.alive) round_eq
        ∙ ap not (
            poll_queues-stop_signal polled.queues polled
            ∙ handle_entries-stop s.internal_queue
                (record s { running = false; internal_queue = [] }))

    has_polled : contains q polled.queues ≡ true
    has_polled =
        ap (contains q) (sym (poll_queues-queues polled.queues polled))
        ∙ ap (λ t. contains q t.queues) (sym round_eq)
        ∙ has

    drained : (round (stop s)).pending q ≡ []
    drained = ap (λ t. t.pending q) round_eq ∙ poll_queues-drains q polled.queues polled has_polled

    all : events_of q (round (stop s)).delivered ≡ history q s
    all =
        sym (append-nil (events_of q (round (stop s)).delivered))
        ∙ ap (λ l. events_of q (round (stop s)).delivered ++ l) (sym drained)
        ∙ history-round q (stop s)
        ∙ history-stop q s
