-- ===== src/AsyncSink/Carried.antt =====
-- What copies and moves of a log buffer through the queue keep.
use logpp.Common.{
  ℕ, ◌+◌, ◌%◌, ◌^◌, ◌≤◌, ◌≡◌, refl, ◌∙◌, ap, sym, true, Option, some, List, [], ◌∷◌, ◌++◌, length,
  length-take, length-replicate, take, drop, take-append_len, take-drop-take, ltb, Bool-cases, inl,
  inr, ◌>>=◌, arith,
}
use logpp.Buffer.{
  LogBuffer, Pointer, inlined, block, null, storage, read_as, fresh, size, advance, is_small,
  move_assign, move_construct,
}
use logpp.Buffer.Wellformed.{IsValid, contents, read_as-some, overwrite-some}
use logpp.Buffer.Copy.{copy_construct-IsCopy}
use logpp.Event.{new_event}
use logpp.AsyncSink.{QueueEntry, push_entry, pop_entry, create, hand_on}

-- What is written lies in memory, and in the object if that is where the bytes are.
pub record IsSound (b : LogBuffer) : Type 0 where
  pub bound : b.cursor ≤ length (storage b)
  pub compact : is_small b.data_ptr ≡ true → b.cursor ≤ 256
  pub limited : b.cursor ≤ 2 ^ 62

-- A buffer has the bytes that were written to another one, and is `k` bytes further.
record Held (k : ℕ) (b c : LogBuffer) : Type 0 where
  same_bytes : take b.cursor (storage c) ≡ contents b
  further : c.cursor ≡ k + b.cursor
  compact_still : is_small c.data_ptr ≡ true → b.cursor ≤ 256

-- Every read within what was written gives the same.
pub record Carries (e h : QueueEntry) : Type 0 where
  pub same_name : h.name ≡ e.name
  pub same_level : h.level ≡ e.level
  pub same_header : h.log_buffer.header ≡ e.log_buffer.header
  pub grows : e.log_buffer.buffer.cursor ≤ h.log_buffer.buffer.cursor
  pub reads :
      (i n : ℕ)
      → i + n ≤ e.log_buffer.buffer.cursor
      → read_as h.log_buffer.buffer i n ≡ read_as e.log_buffer.buffer i n

pub Carries-trans : {e f h : QueueEntry} → Carries e f → Carries f h → Carries e h
Carries-trans p q = record {
  same_name = q.same_name ∙ p.same_name;
  same_level = q.same_level ∙ p.same_level;
  same_header = q.same_header ∙ p.same_header;
  grows = omega (arith, p.grows, q.grows);
  reads = λ i n h. q.reads i n (omega (arith, p.grows)) ∙ p.reads i n h;
}

pub Carries-refl : (e : QueueEntry) → Carries e e
Carries-refl e = record {
  same_name = refl;
  same_level = refl;
  same_header = refl;
  grows = omega arith;
  reads = λ i n h. refl;
}

length-held : (s : List ℕ) (k : ℕ) → length (take k s) ≡ k → k ≤ length s
length-held s k h = omega (arith, length-take k s)

Held-bound :
    {k : ℕ} {b c : LogBuffer}
    → b.cursor ≤ length (storage b)
    → Held k b c
    → b.cursor ≤ length (storage c)
Held-bound {k} {b} {c} bound h =
    length-held (storage c) b.cursor
      (ap length h.same_bytes ∙ omega (arith, length-take b.cursor (storage b), bound))

Held-reads :
    {k : ℕ} {b c : LogBuffer} (i n : ℕ)
    → b.cursor ≤ length (storage b)
    → Held k b c
    → i + n ≤ b.cursor
    → read_as c i n ≡ read_as b i n
Held-reads {k} {b} {c} i n bound h inside =
    read_as-some c i n (omega (arith, Held-bound bound h))
    ∙ ap some (
        sym (take-drop-take b.cursor i n (storage c) inside)
        ∙ ap (λ s. take n (drop i s)) h.same_bytes
        ∙ take-drop-take b.cursor i n (storage b) inside)
    ∙ sym (read_as-some b i n (omega (arith, bound)))

Held-Carries :
    {k : ℕ} (e : QueueEntry) (c : LogBuffer)
    → e.log_buffer.buffer.cursor ≤ length (storage e.log_buffer.buffer)
    → Held k e.log_buffer.buffer c
    → Carries e (record e { log_buffer = record e.log_buffer { buffer = c } })
Held-Carries e c bound h = record {
  same_name = refl;
  same_level = refl;
  same_header = refl;
  grows = omega (arith, h.further);
  reads = λ i n inside. Held-reads i n bound h inside;
}

Held-IsSound : {b c : LogBuffer} → IsSound b → Held 0 b c → IsSound c
Held-IsSound s h = record {
  bound = omega (arith, Held-bound s.bound h, h.further);
  compact = λ small. omega (arith, h.further, h.compact_still small);
  limited = omega (arith, h.further, s.limited);
}

move_cases :
    (b other : LogBuffer) (p : Pointer)
    → other.data_ptr ≡ p
    → length b.inline_data ≡ 256
    → b.cursor ≤ 48
    → IsSound other
    → (c : LogBuffer) × (left : LogBuffer) × (move_assign b other ≡ some (c, left))
      × Held b.cursor other c
unfolding move_assign size advance is_small
move_cases b other inlined e len low s =
    let src : List ℕ = contents other in
    let size_src : length src ≡ other.cursor =
      omega (arith, length-take other.cursor (storage other), s.bound) in
    let small : other.cursor ≤ 256 = s.compact (rw e) in
    let d : List ℕ = src ++ drop (0 + length src) b.inline_data in
    (
      record {
        inline_data = d;
        data_ptr = inlined;
        capacity = other.capacity;
        cursor = (b.cursor + other.cursor) % 2 ^ 64;
      },
      other,
      ground (
        arith,
        read_as-some other 0 other.cursor (omega (arith, s.bound)),
        overwrite-some b.inline_data 0 src (omega arith),
      ),
      record {
        same_bytes = take-append_len other.cursor src _ (sym size_src);
        further = omega (arith, s.limited);
        compact_still = λ _. small;
      },
    )
move_cases b other (block d) e len low s = (
  record b {
    data_ptr = other.data_ptr;
    capacity = other.capacity;
    cursor = (b.cursor + other.cursor) % 2 ^ 64;
  },
  record other { data_ptr = null },
  ground arith,
  record { same_bytes = rw e; further = omega (arith, s.limited); compact_still = s.compact },
)
move_cases b other null e len low s = (
  record b {
    data_ptr = other.data_ptr;
    capacity = other.capacity;
    cursor = (b.cursor + other.cursor) % 2 ^ 64;
  },
  record other { data_ptr = null },
  ground arith,
  record { same_bytes = rw e; further = omega (arith, s.limited); compact_still = s.compact },
)

pub push_entry-Carries :
    (e : QueueEntry)
    → IsSound e.log_buffer.buffer
    → (h : QueueEntry) × (push_entry e ≡ some h) × Carries e h × IsSound h.log_buffer.buffer
unfolding push_entry move_construct fresh
push_entry-Carries e s =
    let b = e.log_buffer.buffer in
    let (c, left, moved, held) =
      move_cases (fresh 256) b b.data_ptr refl (length-replicate {A = ℕ} 256 0) (omega arith) s in
    (
      record e { log_buffer = record e.log_buffer { buffer = c } },
      rw (moved, ◌>>=◌),
      Held-Carries e c s.bound held,
      Held-IsSound s held,
    )

pub pop_entry-Carries :
    (e : QueueEntry)
    → IsSound e.log_buffer.buffer
    → (h : QueueEntry) × (pop_entry e ≡ some h) × Carries e h
unfolding pop_entry new_event fresh advance
pop_entry-Carries e s =
    let b = e.log_buffer.buffer in
    let (c, left, moved, held) =
      move_cases new_event.buffer b b.data_ptr refl (length-replicate {A = ℕ} 256 0) (omega arith)
        s in
    (
      record e { log_buffer = record e.log_buffer { buffer = c } },
      rw (moved, ◌>>=◌),
      Held-Carries e c s.bound held,
    )

module _ (malloc : ℕ → Option (List ℕ))
    (total : (n : ℕ) → (d : List ℕ) × (malloc n ≡ some d) × (length d ≡ n)) where
  pub create-Carries :
      (e : QueueEntry)
      → IsValid e.log_buffer.buffer
      → e.log_buffer.buffer.cursor ≤ 2 ^ 62
      → (h : QueueEntry) × (create malloc e.name e.level e.log_buffer ≡ some h)
        × Carries e h
        × IsSound h.log_buffer.buffer
  unfolding create
  create-Carries e v limit =
      let b = e.log_buffer.buffer in
      let (c, copied, k) = copy_construct-IsCopy malloc total 256 b (omega arith) v limit in
      let bound : b.cursor ≤ length (storage b) = omega (arith, v.fits, v.room) in
      let whole : take b.cursor (storage c) ≡ contents b =
        ap (λ m. take m (storage c)) (sym k.cursor_same) ∙ k.contents_same in
      let compact : is_small c.data_ptr ≡ true → b.cursor ≤ 256 = λ small.
        elim (Bool-cases (ltb 256 b.cursor)) [
          | inl more ↦ absurd (grind (arith, small, k.on_heap (ground (arith, more))))
          | inr other ↦ ground (arith, other)
        ] in
      let held : Held 0 b c = record {
        same_bytes = whole;
        further = omega (arith, k.cursor_same);
        compact_still = compact;
      } in
      (
        record e { log_buffer = record e.log_buffer { buffer = c } },
        rw (copied, ◌>>=◌),
        Held-Carries e c bound held,
        record {
          bound = omega (arith, Held-bound bound held, k.cursor_same);
          compact = λ small. omega (arith, k.cursor_same, compact small);
          limited = omega (arith, k.cursor_same);
        },
      )

-- The entries of two lists, one by one.
abbrev pub AllCarried : List QueueEntry → List QueueEntry → Type 0
AllCarried [] [] = Unit {0}
AllCarried (e ∷ es) (h ∷ hs) = Carries e h × AllCarried es hs
AllCarried [] (h ∷ hs) = ⊥
AllCarried (e ∷ es) [] = ⊥

abbrev pub AllSound : List QueueEntry → Type 0
AllSound [] = Unit {0}
AllSound (e ∷ es) = IsSound e.log_buffer.buffer × AllSound es

pub AllCarried-refl : (es : List QueueEntry) → AllCarried es es
AllCarried-refl [] = tt
AllCarried-refl (e ∷ es) = (Carries-refl e, AllCarried-refl es)

pub AllCarried-trans :
    (es fs hs : List QueueEntry) → AllCarried es fs → AllCarried fs hs → AllCarried es hs
AllCarried-trans [] [] [] p q = tt
AllCarried-trans (e ∷ es) (f ∷ fs) (h ∷ hs) p q =
    (Carries-trans p.0 q.0, AllCarried-trans es fs hs p.1 q.1)
AllCarried-trans [] (f ∷ fs) hs p q = absurd p
AllCarried-trans (e ∷ es) [] hs p q = absurd p
AllCarried-trans [] [] (h ∷ hs) p q = absurd q
AllCarried-trans (e ∷ es) (f ∷ fs) [] p q = absurd q

pub AllCarried-append :
    (es fs hs ks : List QueueEntry)
    → AllCarried es fs
    → AllCarried hs ks
    → AllCarried (es ++ hs) (fs ++ ks)
AllCarried-append [] [] hs ks p q = q
AllCarried-append (e ∷ es) (f ∷ fs) hs ks p q = (p.0, AllCarried-append es fs hs ks p.1 q)
AllCarried-append [] (f ∷ fs) hs ks p q = absurd p
AllCarried-append (e ∷ es) [] hs ks p q = absurd p

pub AllSound-append : (es fs : List QueueEntry) → AllSound es → AllSound fs → AllSound (es ++ fs)
AllSound-append [] fs p q = q
AllSound-append (e ∷ es) fs p q = (p.0, AllSound-append es fs p.1 q)

pub hand_on-AllCarried :
    (es : List QueueEntry)
    → AllSound es
    → (hs : List QueueEntry) × (hand_on es ≡ some hs) × AllCarried es hs
unfolding hand_on
hand_on-AllCarried [] s = ([], refl, tt)
hand_on-AllCarried (e ∷ es) s =
    let (h, popped, c) = pop_entry-Carries e s.0 in
    let (hs, on, cs) = hand_on-AllCarried es s.1 in (h ∷ hs, rw (popped, ◌>>=◌, on), (c, cs))
