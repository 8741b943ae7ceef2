-- ===== src/BoundedQueue/Polls.antt =====
-- What polling a bounded queue hands to its handler.
use logpp.Common.{
  ℕ, zero, suc, ◌+◌, ◌<◌, ◌≡◌, refl, ap, ap₂, sym, ◌∙◌, subst, Bool, true, false, Option, none,
  some, List, [], ◌∷◌, ◌++◌, append-nil, append_assoc, length, if◌then◌else◌, arith, Option-cases,
  inl, inr, ◌>>=◌,
}
use logpp.BoundedQueue.{QueueOperations, BoundedQueue, push, handle_popped, poll_from, poll}

-- What is documented of the queue: entries leave in the order in which they came.
pub record IsFifo {Q : Type 0} (o : QueueOperations Q) (view : Q → List ℕ) : Type 0 where
  pub pop_empty : (q : Q) → view q ≡ [] → o.try_pop q ≡ none
  pub pop_first :
      (q : Q) (x : ℕ) (xs : List ℕ)
      → view q ≡ x ∷ xs
      → (q' : Q) × (o.try_pop q ≡ some (x, q')) × (view q' ≡ xs)
  pub push_last : (q q' : Q) (x : ℕ) → o.push_entry x q ≡ some q' → view q' ≡ view q ++ (x ∷ [])

-- What a handler is given, if it is set.
abbrev pub given : Bool → List ℕ → List ℕ
given true xs = xs
given false xs = []

given-step :
    (b : Bool) (old : List ℕ) (x : ℕ) (xs : List ℕ)
    → (if b then old ++ (x ∷ []) else old) ++ given b xs ≡ old ++ given b (x ∷ xs)
given-step true old x xs = append_assoc old (x ∷ []) xs
given-step false old x xs = refl

given-nil : (b : Bool) (old : List ℕ) → old ≡ old ++ given b []
given-nil true old = sym (append-nil old)
given-nil false old = sym (append-nil old)

module _ {Q : Type 0} (o : QueueOperations Q) (view : Q → List ℕ) (fifo : IsFifo o view) where
  poll_from-drains :
      (fuel total : ℕ) (b : BoundedQueue o) (xs : List ℕ)
      → view b.queue ≡ xs
      → length xs < fuel
      → (b' : BoundedQueue o) × (poll_from o fuel total b ≡ some (b', total + length xs))
        × (view b'.queue ≡ [])
        × (b'.has_handler ≡ b.has_handler)
        × (b'.handled ≡ b.handled ++ given b.has_handler xs)
  unfolding poll_from handle_popped
  poll_from-drains zero total b xs v h = absurd (omega (arith, h))
  poll_from-drains (suc fuel) total b [] v h = (
    b,
    rw (poll_from, fifo.pop_empty b.queue v) (ap (λ n. some (b, n)) (omega arith)),
    v,
    refl,
    given-nil b.has_handler b.handled,
  )
  poll_from-drains (suc fuel) total b (x ∷ xs) v h =
      let (q', e, w) = fifo.pop_first b.queue x xs v in
      let (b', r, empty, kept, all) =
        poll_from-drains fuel (total + 1) (handle_popped o x q' b) xs w (omega (arith, h)) in
      (
        b',
        rw (poll_from, e) (r ∙ ap (λ n. some (b', n)) (omega arith)),
        empty,
        kept,
        all ∙ given-step b.has_handler b.handled x xs,
      )

  -- Pushes one after the other, none of which waits.
  unfoldable pub push_each : List ℕ → BoundedQueue o → Option (BoundedQueue o)
  unfolding push
  push_each [] b = some b
  push_each (x ∷ xs) b = push o x b >>= λ b'. push_each xs b'

  -- What a push that does not wait leaves as it was, and the view of its queue.
  record Pushed (b b' : BoundedQueue o) (xs : List ℕ) : Type 0 where
    same_handler : b'.has_handler ≡ b.has_handler
    same_handled : b'.handled ≡ b.handled
    longer : view b'.queue ≡ view b.queue ++ xs

  push-Pushed : (x : ℕ) (b b' : BoundedQueue o) → push o x b ≡ some b' → Pushed b b' (x ∷ [])
  unfolding push
  push-Pushed x b b' h = elim (Option-cases (o.push_entry x b.queue)) [
    | inl e ↦ absurd (ground (arith, e, h))
    | inr (q, e) ↦
        let found = subst (λ m. (m >>= λ p. some (record b { queue = p })) ≡ some b') e h in
        let made : record b { queue = q } ≡ b' = cc in
        subst (λ c. Pushed b c (x ∷ [])) made
          (record {
            same_handler = refl;
            same_handled = refl;
            longer = fifo.push_last b.queue q x e;
          })
  ]

  push_each-Pushed :
      (xs : List ℕ) (b b' : BoundedQueue o) → push_each xs b ≡ some b' → Pushed b b' xs
  unfolding push_each
  push_each-Pushed [] b b' h =
      let made : b ≡ b' = cc in
      subst (λ c. Pushed b c []) made
        (record {
          same_handler = refl;
          same_handled = refl;
          longer = sym (append-nil (view b.queue));
        })
  push_each-Pushed (x ∷ xs) b b' h = elim (Option-cases (push o x b)) [
    | inl e ↦ absurd (ground (arith, e, h))
    | inr (c, e) ↦
        let one = push-Pushed x b c e in
        let rest =
          push_each-Pushed xs c b' (subst (λ m. (m >>= λ d. push_each xs d) ≡ some b') e h) in
        record {
          same_handler = rest.same_handler ∙ one.same_handler;
          same_handled = rest.same_handled ∙ one.same_handled;
          longer =
              rest.longer ∙ ap (λ l. l ++ xs) one.longer ∙ append_assoc (view b.queue) (x ∷ []) xs;
        }
  ]

  -- Entries are pushed to a queue that hands them out in the order in which they came, and no push has to
  -- wait. A poll with more fuel than there are entries in the queue then ends: it returns their number, and
  -- leaves the queue empty. If a handler is set, it has been given what was in the queue and then
  -- the entries, in order; if not, they are gone.
  pub poll-push_each :
      (xs : List ℕ) (b b₁ : BoundedQueue o) (fuel : ℕ)
      → push_each xs b ≡ some b₁
      → length (view b.queue ++ xs) < fuel
      → (b₂ : BoundedQueue o) × (poll o fuel b₁ ≡ some (b₂, length (view b.queue ++ xs)))
        × (view b₂.queue ≡ [])
        × (b₂.handled ≡ b.handled ++ given b.has_handler (view b.queue ++ xs))
  unfolding poll
  poll-push_each xs b b₁ fuel h more =
      let p = push_each-Pushed xs b b₁ h in
      let (b₂, e, empty, kept, all) =
        poll_from-drains fuel 0 b₁ (view b.queue ++ xs) p.longer more in
      (
        b₂,
        e ∙ ap (λ n. some (b₂, n)) (omega arith),
        empty,
        all ∙ ap₂ (λ l c. l ++ given c (view b.queue ++ xs)) p.same_handled p.same_handler,
      )
