-- ===== src/AsyncSink/Order.antt =====
-- The order in which an asynchronous sink hands on events.
use logpp.Common.{
  ℕ, suc, ◌+◌, ◌≤◌, ◌<◌, ◌≡◌, refl, ◌∙◌, ap, sym, subst, true, some, List, [], ◌∷◌, ◌++◌,
  append-nil, append_assoc, length, length-append, ltb, ◌==◌, ◌>>=◌, ◌^◌, Option, arith,
}
use logpp.Poller.{push, Step, push_step}
use logpp.Poller.Delivery.{events_of, history, pushed, NeverStarts, history-push, take_step-history}
use logpp.Buffer.Wellformed.{IsValid}
use logpp.AsyncSink.{
  QueueEntry, AsyncSink, sink_entry, AsyncStep, sink_step, poller_step, take_async, run_async,
  entries_at, hand_on,
}
use logpp.AsyncSink.Numbers.{
  count_from, count_from-zero_snoc, IsNumbered, pending-length, entries_at-numbered,
}
use logpp.AsyncSink.Carried.{
  AllCarried, AllSound, AllCarried-refl, AllCarried-trans, AllCarried-append, AllSound-append,
  Carries-trans, create-Carries, push_entry-Carries, hand_on-AllCarried,
}

-- The steps of the poller do not start it, and nobody else pushes to the queue.
abbrev pub AllOthers : ℕ → List AsyncStep → Type 0
AllOthers q [] = Unit
AllOthers q (sink_step e ∷ xs) = AllOthers q xs
AllOthers q (poller_step x ∷ xs) = NeverStarts (x ∷ []) × (pushed q (x ∷ []) ≡ []) × AllOthers q xs

abbrev pub sunk : List AsyncStep → List QueueEntry
sunk [] = []
sunk (sink_step e ∷ xs) = e ∷ sunk xs
sunk (poller_step x ∷ xs) = sunk xs

-- The events that are sunk are well-formed buffers.
abbrev pub AllValid : List QueueEntry → Type 0
AllValid [] = Unit {0}
AllValid (e ∷ es) =
    IsValid e.log_buffer.buffer × (e.log_buffer.buffer.cursor ≤ 2 ^ 62) × AllValid es

-- What one step leaves: the same queue and capacity, the events numbered, and behind the slots that there
-- were one more for each event that is sunk, with the event.
pub record Advanced (a a' : AsyncSink) (es : List QueueEntry) : Type 0 where
  pub slots : List QueueEntry
  pub same_queue : a'.queue ≡ a.queue
  pub same_capacity : a'.capacity ≡ a.capacity
  pub more_entries : a'.entries ≡ a.entries ++ slots
  pub carried : AllCarried es slots
  pub sound : AllSound slots
  pub count : length slots ≡ length es
  pub still_numbered : IsNumbered a'

pushed-one : (q e : ℕ) → pushed q (push_step q e ∷ []) ≡ e ∷ []
unfolding pushed
pushed-one q e = let same_number : (q == q) ≡ true = ground arith in rw same_number refl

AllSound-left : (es fs : List QueueEntry) → AllSound (es ++ fs) → AllSound es
AllSound-left [] fs s = tt
AllSound-left (e ∷ es) fs s = (s.0, AllSound-left es fs s.1)

-- What the inner sink has been given, with what still stands in the queue.
handed-AllCarried :
    (a : AsyncSink)
    → IsNumbered a
    → AllSound a.entries
    → (handed : List QueueEntry) × (hand_on
          (entries_at a.entries (events_of a.queue a.poller.delivered))
        ≡ some handed)
      × AllCarried a.entries (handed ++ entries_at a.entries (a.poller.pending a.queue))
handed-AllCarried a n s =
    let left = entries_at a.entries (events_of a.queue a.poller.delivered) in
    let waits = entries_at a.entries (a.poller.pending a.queue) in
    let all = entries_at-numbered a n in
    let (handed, on, carried) =
      hand_on-AllCarried left (AllSound-left left waits (subst AllSound (sym all) s)) in
    (
      handed,
      on,
      subst (λ es. AllCarried es (handed ++ waits)) all
          (AllCarried-append left handed waits waits carried (AllCarried-refl waits)),
    )

still_room :
    (a a₁ : AsyncSink) {es : List QueueEntry} (one : Advanced a a₁ es) (later : List QueueEntry)
    → length a.entries + (length es + length later) ≤ a.capacity
    → length a₁.entries + length later ≤ a₁.capacity
still_room a a₁ one later room = omega (
  arith,
  room,
  one.same_capacity,
  one.count,
  ap length one.more_entries,
  length-append a.entries one.slots,
)

Advanced-trans :
    {a b c : AsyncSink} {es fs : List QueueEntry}
    → Advanced a b es
    → Advanced b c fs
    → Advanced a c (es ++ fs)
Advanced-trans {a} {b} {c} {es} {fs} p q = record {
  slots = p.slots ++ q.slots;
  same_queue = q.same_queue ∙ p.same_queue;
  same_capacity = q.same_capacity ∙ p.same_capacity;
  more_entries =
      q.more_entries
      ∙ ap (λ l. l ++ q.slots) p.more_entries
      ∙ append_assoc a.entries p.slots q.slots;
  carried = AllCarried-append es p.slots fs q.slots p.carried q.carried;
  sound = AllSound-append p.slots q.slots p.sound q.sound;
  count = omega (arith, p.count, q.count, length-append p.slots q.slots, length-append es fs);
  still_numbered = q.still_numbered;
}

module _ (malloc : ℕ → Option (List ℕ))
    (total : (n : ℕ) → (d : List ℕ) × (malloc n ≡ some d) × (length d ≡ n)) where
  sink_entry-Advanced :
      (e : QueueEntry) (a : AsyncSink)
      → IsNumbered a
      → IsValid e.log_buffer.buffer
      → e.log_buffer.buffer.cursor ≤ 2 ^ 62
      → length a.entries < a.capacity
      → (a' : AsyncSink) × (sink_entry malloc e a ≡ some a') × Advanced a a' (e ∷ [])
  unfolding sink_entry
  sink_entry-Advanced e a n v limit room =
      let free : ltb (length (a.poller.pending a.queue)) a.capacity ≡ true =
        ground (arith, room, pending-length a n) in
      let (c, created, c_carries, c_sound) = create-Carries malloc total e v limit in
      let (slot, moved, s_carries, s_sound) = push_entry-Carries c c_sound in
      let a' = record a {
        poller = push a.queue (length a.entries) a.poller;
        entries = a.entries ++ (slot ∷ []);
      } in
      let longer : length (a.entries ++ (slot ∷ [])) ≡ suc (length a.entries) =
        omega (arith, length-append a.entries (slot ∷ [])) in
      (
        a',
        rw (free, created, ◌>>=◌, moved) refl,
        record {
          slots = slot ∷ [];
          same_queue = refl;
          same_capacity = refl;
          more_entries = refl;
          carried = (Carries-trans c_carries s_carries, tt);
          sound = (s_sound, tt);
          count = refl;
          still_numbered = record {
            numbered =
                history-push a.queue a.queue (length a.entries) a.poller
                ∙ ap (λ l. history a.queue a.poller ++ l) (pushed-one a.queue (length a.entries))
                ∙ ap (λ l. l ++ (length a.entries ∷ [])) n.numbered
                ∙ sym (count_from-zero_snoc (length a.entries))
                ∙ ap (count_from 0) (sym longer);
          };
        },
      )

  poller_step-Advanced :
      (x : Step) (a : AsyncSink)
      → IsNumbered a
      → NeverStarts (x ∷ [])
      → pushed a.queue (x ∷ []) ≡ []
      → (a' : AsyncSink) × (take_async malloc (poller_step x) a ≡ some a') × Advanced a a' []
  unfolding take_async
  poller_step-Advanced x a n never silent =
      let one = take_step-history a.queue x a.poller never in
      (
        record a { poller = one.0 },
        rw (one.1, ◌>>=◌) refl,
        record {
          slots = [];
          same_queue = refl;
          same_capacity = refl;
          more_entries = sym (append-nil a.entries);
          carried = tt;
          sound = tt;
          count = refl;
          still_numbered = record {
            numbered =
                one.2
                ∙ ap (λ l. history a.queue a.poller ++ l) silent
                ∙ append-nil (history a.queue a.poller)
                ∙ n.numbered;
          };
        },
      )

  -- All the steps, one after the other.
  run_async-Advanced :
      (xs : List AsyncStep) (a : AsyncSink)
      → IsNumbered a
      → AllOthers a.queue xs
      → AllValid (sunk xs)
      → length a.entries + length (sunk xs) ≤ a.capacity
      → (a' : AsyncSink) × (run_async malloc xs a ≡ some a') × Advanced a a' (sunk xs)
  unfolding run_async take_async
  run_async-Advanced [] a n others valid room = (
    a,
    refl,
    record {
      slots = [];
      same_queue = refl;
      same_capacity = refl;
      more_entries = sym (append-nil a.entries);
      carried = tt;
      sound = tt;
      count = refl;
      still_numbered = n;
    },
  )
  run_async-Advanced (sink_step e ∷ xs) a n others (v, limit, valid) room =
      let (a₁, taken, one) = sink_entry-Advanced e a n v limit (omega arith) in
      let rest =
        run_async-Advanced xs a₁ one.still_numbered
          (subst (λ q. AllOthers q xs) (sym one.same_queue) others) valid
          (still_room a a₁ one (sunk xs) (omega (arith, room))) in
      (rest.0, rw (taken, ◌>>=◌) rest.1, Advanced-trans one rest.2)
  run_async-Advanced (poller_step x ∷ xs) a n (never, silent, others) valid room =
      let (a₁, taken, one) = poller_step-Advanced x a n never silent in
      let rest =
        run_async-Advanced xs a₁ one.still_numbered
          (subst (λ q. AllOthers q xs) (sym one.same_queue) others) valid
          (still_room a a₁ one (sunk xs) (omega (arith, room))) in
      (rest.0, rw (taken, ◌>>=◌) rest.1, Advanced-trans one rest.2)

  -- Where memory can be had: an asynchronous sink whose events have left its queue or stand in it in the
  -- order of their numbers, in buffers whose written bytes lie in memory (in the object 256 at most) and
  -- are 2^62 at most, and whose queue has room for all events; over any steps of its poller but a start,
  -- where nobody else pushes to the queue, and where what is sunk are well-formed buffers of at most 2^62
  -- bytes. The steps succeed, the events are still in that order, and what the inner sink has been
  -- given, followed by what still stands in the queue, carries what stood in the slots of the queue
  -- before and what the steps sink, in order and once each: with the same level, the same header and the
  -- same view of the name, and with a buffer in which every read within what was written gives the same,
  -- and whose cursor is the same or further.
  pub run_async-order :
      (xs : List AsyncStep) (a : AsyncSink)
      → IsNumbered a
      → AllSound a.entries
      → AllOthers a.queue xs
      → AllValid (sunk xs)
      → length a.entries + length (sunk xs) ≤ a.capacity
      → (a' : AsyncSink) × (handed : List QueueEntry) × (run_async malloc xs a ≡ some a')
        × IsNumbered a'
        × (hand_on (entries_at a'.entries (events_of a'.queue a'.poller.delivered)) ≡ some handed)
        × AllCarried
            (a.entries ++ sunk xs)
            (handed ++ entries_at a'.entries (a'.poller.pending a'.queue))
  run_async-order xs a n sound others valid room =
      let (a', ran, done) = run_async-Advanced xs a n others valid room in
      let all_sound =
        subst AllSound (sym done.more_entries)
          (AllSound-append a.entries done.slots sound done.sound) in
      let (handed, on, carried) = handed-AllCarried a' done.still_numbered all_sound in
      let stored =
        AllCarried-append a.entries a.entries (sunk xs) done.slots (AllCarried-refl a.entries)
          done.carried in
      (
        a',
        handed,
        ran,
        done.still_numbered,
        on,
        AllCarried-trans _ a'.entries _
            (subst (λ es. AllCarried (a.entries ++ sunk xs) es) (sym done.more_entries) stored)
            carried,
      )
