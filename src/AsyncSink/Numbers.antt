-- ===== src/AsyncSink/Numbers.antt =====
-- The numbers of the events of an asynchronous sink.
use logpp.Common.{
  ℕ, zero, suc, ◌+◌, ◌≤◌, ◌≡◌, refl, ◌∙◌, ap, sym, some, List, [], ◌∷◌, ◌++◌, append_assoc, length,
  length-append, get_elem?, arith, inl, inr, Option-cases,
}
use logpp.Poller.Delivery.{events_of, history}
use logpp.AsyncSink.{QueueEntry, AsyncSink, entries_at}

-- The numbers from `n` on.
unfoldable pub count_from : ℕ → ℕ → List ℕ
count_from n zero = []
count_from n (suc k) = n ∷ count_from (n + 1) k

count_from-snoc : (n k : ℕ) → count_from n (suc k) ≡ count_from n k ++ ((n + k) ∷ [])
unfolding count_from
count_from-snoc n zero = let same : n ≡ n + 0 = omega arith in ap (λ m. m ∷ []) same
count_from-snoc n (suc k) =
    let next : (n + 1) + k ≡ n + suc k = omega arith in
    ap (λ l. n ∷ l) (count_from-snoc (n + 1) k ∙ ap (λ m. count_from (n + 1) k ++ (m ∷ [])) next)

pub count_from-zero_snoc : (k : ℕ) → count_from 0 (suc k) ≡ count_from 0 k ++ (k ∷ [])
count_from-zero_snoc k =
    let same : 0 + k ≡ k = omega arith in
    count_from-snoc 0 k ∙ ap (λ m. count_from 0 k ++ (m ∷ [])) same

length-count_from : (n k : ℕ) → length (count_from n k) ≡ k
unfolding count_from
length-count_from n zero = refl
length-count_from n (suc k) = ap suc (length-count_from (n + 1) k)

get_elem?-length :
    (pre : List QueueEntry) (e : QueueEntry) (es : List QueueEntry)
    → get_elem? (pre ++ (e ∷ es)) (length pre) ≡ some e
get_elem?-length [] e es = refl
get_elem?-length (p ∷ pre) e es = get_elem?-length pre e es

entries_at-count_from :
    (pre es : List QueueEntry) → entries_at (pre ++ es) (count_from (length pre) (length es)) ≡ es
unfolding entries_at count_from
entries_at-count_from pre [] = refl
entries_at-count_from pre (e ∷ es) =
    let moved : length (pre ++ (e ∷ [])) ≡ length pre + 1 = length-append pre (e ∷ []) in
    let rest = entries_at-count_from (pre ++ (e ∷ [])) es in
    rw (entries_at, get_elem?-length pre e es)
      (ap (λ l. e ∷ l)
        (ap (λ es'. entries_at es' (count_from (length pre + 1) (length es)))
            (sym (append_assoc pre (e ∷ []) es))
          ∙ ap (λ n. entries_at ((pre ++ (e ∷ [])) ++ es) (count_from n (length es))) (sym moved)
          ∙ rest))

entries_at-append :
    (es : List QueueEntry) (is js : List ℕ)
    → entries_at es (is ++ js) ≡ entries_at es is ++ entries_at es js
unfolding entries_at
entries_at-append es [] js = refl
entries_at-append es (i ∷ is) js = elim (Option-cases (get_elem? es i)) [
  | inl h ↦ rw (entries_at, h, entries_at-append es is js) refl
  | inr (e, h) ↦ rw (entries_at, h, entries_at-append es is js) refl
]

-- The events in the queue and those that have left it are all that were sunk, by their numbers.
pub record IsNumbered (a : AsyncSink) : Type 0 where
  pub numbered : history a.queue a.poller ≡ count_from 0 (length a.entries)

pub pending-length :
    (a : AsyncSink) → IsNumbered a → length (a.poller.pending a.queue) ≤ length a.entries
pending-length a n = omega (
  arith,
  ap length n.numbered,
  length-append (events_of a.queue a.poller.delivered) (a.poller.pending a.queue),
  length-count_from 0 (length a.entries),
)

-- The events that have left the queue, and those that stand in it, are the events.
pub entries_at-numbered :
    (a : AsyncSink)
    → IsNumbered a
    → entries_at a.entries (events_of a.queue a.poller.delivered)
        ++ entries_at a.entries (a.poller.pending a.queue)
      ≡ a.entries
entries_at-numbered a n =
    sym (
      entries_at-append a.entries (events_of a.queue a.poller.delivered) (a.poller.pending a.queue))
    ∙ ap (entries_at a.entries) n.numbered
    ∙ entries_at-count_from [] a.entries
