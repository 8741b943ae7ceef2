-- ===== src/Buffer/Copy.antt =====
-- Copies and moves: what the new buffer holds, and that a copy of a buffer that has grown claims
-- more memory than it has.
use native.Mathlib.Nat.{mod-eq_of_lt}
use logpp.Common.{
  ℕ, ◌+◌, ◌*◌, ◌%◌, ◌^◌, ◌≤◌, ◌<◌, ◌≡◌, ◌≢◌, refl, ◌∙◌, ap, sym, subst, false, Option, none, some,
  List, ◌++◌, length, drop, arith, ◌>>=◌, max, length-replicate, replicate, if◌then◌else◌,
  take-append_len,
}
use logpp.Buffer.{
  LogBuffer, Pointer, inlined, block, null, storage, bytes_at, size, encode, fresh, advance,
  reserve, store_at, copy_assign, copy_construct, move_assign, move_construct, size_mod, overwrite,
  is_small,
}
use logpp.Buffer.Wellformed.{
  IsValid, IsLive, contents, length-contents, fresh-IsValid, read_as-some, store_at-some,
  length-overwritten, overwrite-some,
}
use logpp.Buffer.Append.{encode-appends, reserve-Reserved}

-- What a copy of `other` leaves in a `LogBuffer<N>` with N = `n`.
pub record IsCopy (n : ℕ) (other c : LogBuffer) : Type 0 where
  pub contents_same : contents c ≡ contents other
  pub cursor_same : c.cursor ≡ other.cursor
  pub capacity_same : c.capacity ≡ other.capacity
  pub memory : n < other.cursor → length (storage c) ≡ max (n * 2 % size_mod) other.cursor
  pub on_heap : n < other.cursor → is_small c.data_ptr ≡ false

-- A value that the capacity has room for and the memory has not.
store-overruns :
    (c : LogBuffer) (value : List ℕ)
    → length (storage c) < c.cursor + length value
    → store_at c c.cursor value ≡ none
unfolding store_at overwrite
store-overruns c value h = ground arith

reserve-within :
    (malloc : ℕ → Option (List ℕ)) (c : LogBuffer) (want : ℕ)
    → want ≤ c.capacity
    → reserve malloc c want ≡ some c
unfolding reserve
reserve-within malloc c want h = ground arith

pub encode-overruns :
    (malloc : ℕ → Option (List ℕ)) (c : LogBuffer) (value : List ℕ)
    → c.cursor + length value ≤ c.capacity
    → c.cursor + length value < 2 ^ 64
    → length (storage c) < c.cursor + length value
    → encode malloc c value ≡ none
unfolding encode size
encode-overruns malloc c value room small over = rw (
  mod-eq_of_lt small,
  reserve-within malloc c (c.cursor + length value) room,
  ◌>>=◌,
  store-overruns c value over,
)

module _ (malloc : ℕ → Option (List ℕ))
    (total : (n : ℕ) → (d : List ℕ) × (malloc n ≡ some d) × (length d ≡ n)) where
  pub copy_construct-IsCopy :
      (n : ℕ) (other : LogBuffer)
      → n < 2 ^ 62
      → IsValid other
      → other.cursor ≤ 2 ^ 62
      → (c : LogBuffer) × (copy_construct malloc n other ≡ some c) × IsCopy n other c
  unfolding copy_construct copy_assign size advance
  copy_construct-IsCopy n other small v fits =
      let src : List ℕ = contents other in
      let size_src : length src ≡ other.cursor = length-contents other v in
      let (r, e, k) =
        reserve-Reserved malloc total (fresh n) other.cursor (fresh-IsValid n (omega arith)) fits in
      let (s, e', st) =
        store_at-some r 0 src k.valid.live (omega (arith, k.valid.room, k.enough)) in
      let at_start : r.cursor ≡ 0 = unfold fresh in k.same_cursor in
      let whole : (s.cursor + other.cursor) % size_mod ≡ other.cursor =
        omega (arith, st.same_cursor) in
      (
        record (advance s other.cursor) { capacity = other.capacity },
        ground (arith, e, e', read_as-some other 0 other.cursor, v.fits, v.room),
        record {
          contents_same = rw (whole, st.holds) (take-append_len other.cursor src _ (sym size_src));
          cursor_same = whole;
          capacity_same = refl;
          memory = λ grown.
              ap length st.holds
              ∙ length-overwritten (storage r) 0 src (omega (arith, k.valid.room, k.enough))
              ∙ (unfold fresh in k.allocated grown);
          on_heap = λ grown. st.same_place ∙ (unfold fresh in k.on_heap grown);
        },
      )

  -- The defect of `operator=`: it takes over the capacity of the original, and not its memory. Let
  -- the original have outgrown N, and let a value fit its capacity, so that writing it there does
  -- not fault, and not fit what the copy has allocated. Then writing it to the copy is an access
  -- out of bounds.
  pub copy_construct-overruns :
      (n : ℕ) (other : LogBuffer) (value : List ℕ)
      → n < 2 ^ 62
      → IsValid other
      → n < other.cursor
      → other.cursor + length value ≤ 2 ^ 62
      → other.cursor + length value ≤ other.capacity
      → max (n * 2) other.cursor < other.cursor + length value
      → (c : LogBuffer) × (copy_construct malloc n other ≡ some c)
        × (encode malloc c value ≡ none)
        × (encode malloc other value ≢ none)
  copy_construct-overruns n other value small v grown fits room over =
      let (c, e, k) = copy_construct-IsCopy n other small v (omega arith) in
      let (_, written, _) = encode-appends malloc total other value v fits in
      (
        c,
        e,
        encode-overruns malloc c value (omega (arith, k.cursor_same, k.capacity_same))
            (omega (arith, k.cursor_same)) (omega (arith, k.memory grown, k.cursor_same)),
        λ h. cc,
      )

move_cases :
    (n : ℕ) (other : LogBuffer) (p : Pointer)
    → other.data_ptr ≡ p
    → n < 2 ^ 63
    → IsValid other
    → length other.inline_data ≡ n
    → (c : LogBuffer) × (left : LogBuffer) × (move_construct n other ≡ some (c, left))
      × IsValid c
      × (contents c ≡ contents other)
      × (left.data_ptr ≡ (if is_small other.data_ptr then inlined else null))
unfolding move_construct move_assign size advance fresh is_small
move_cases n other inlined e small v len =
    let src : List ℕ = contents other in
    let size_src : length src ≡ other.cursor = length-contents other v in
    let inline_store : storage other ≡ other.inline_data = rw e in
    let room : other.capacity ≤ n = omega (arith, v.room, ap length inline_store) in
    let zeros : length (replicate {A = ℕ} n 0) ≡ n = length-replicate n 0 in
    let d : List ℕ = src ++ drop (0 + length src) (replicate n 0) in
    let length_d : length d ≡ n =
      omega (arith, length-overwritten (replicate n 0) 0 src (omega arith)) in
    let whole : (0 + other.cursor) % size_mod ≡ other.cursor = omega arith in
    (
      record {
        inline_data = d;
        data_ptr = inlined;
        capacity = other.capacity;
        cursor = (0 + other.cursor) % size_mod;
      },
      other,
      ground (arith, read_as-some other 0 other.cursor, overwrite-some (replicate n 0) 0 src),
      record { fits = omega arith; room = omega arith; small = omega arith; live = tt },
      rw whole (take-append_len other.cursor src _ (sym size_src)),
      rw e,
    )
move_cases n other (block d) e small v len =
    let whole : (0 + other.cursor) % size_mod ≡ other.cursor = omega arith in
    (
      record {
        inline_data = replicate n 0;
        data_ptr = other.data_ptr;
        capacity = other.capacity;
        cursor = (0 + other.cursor) % size_mod;
      },
      record other { data_ptr = null },
      ground arith,
      record {
        fits = omega arith;
        room = rw e (subst (λ p. other.capacity ≤ length (bytes_at p other.inline_data)) e v.room);
        small = omega arith;
        live = v.live;
      },
      rw (whole, e),
      rw e,
    )
move_cases n other null e small v len = absurd (subst IsLive e v.live)

-- A move hands over the contents, and leaves a well-formed buffer, whether the bytes stand in the
-- object or on the heap; of a buffer on the heap the source keeps no memory.
pub move_construct-moves :
    (n : ℕ) (other : LogBuffer)
    → n < 2 ^ 63
    → IsValid other
    → length other.inline_data ≡ n
    → (c : LogBuffer) × (left : LogBuffer) × (move_construct n other ≡ some (c, left))
      × IsValid c
      × (contents c ≡ contents other)
      × (left.data_ptr ≡ (if is_small other.data_ptr then inlined else null))
unfolding move_construct move_assign size advance fresh is_small
move_construct-moves n other small v len = move_cases n other other.data_ptr refl small v len
