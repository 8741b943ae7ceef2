-- ===== src/Buffer/Append.antt =====
-- Writing appends: where memory can be had, encoding a value never faults, gives the value's place,
-- and leaves everything that was written before as it was.
use native.Mathlib.Nat.{mod-eq_of_lt}
use logpp.Common.{
  ◌>>=◌, ℕ, ◌+◌, ◌*◌, ◌%◌, ◌^◌, ◌≤◌, ◌<◌, ◌≡◌, refl, ◌∙◌, sym, ap, inl, inr, false, Option, some,
  List, ◌++◌, length, take, drop, length-append, length-take, length-drop, take-append_len, arith,
  leb, Bool-cases, max, take-drop-take, take-drop-append, take-all, drop-append_len, append_assoc,
}
use logpp.Buffer.{
  LogBuffer, block, storage, read_as, size, grow, reserve, write, encode, encode_raw, size_mod,
  is_small,
}
use logpp.Buffer.Wellformed.{
  IsValid, contents, Stored, overwrite-some, length-overwritten, store_at-some, read_as-some,
  length-contents,
}

-- What `reserve` leaves.
pub record Reserved (b b' : LogBuffer) (want : ℕ) : Type 0 where
  pub valid : IsValid b'
  pub enough : want ≤ b'.capacity
  pub keeps : contents b' ≡ contents b
  pub same_cursor : b'.cursor ≡ b.cursor
  pub allocated : b.capacity < want → length (storage b') ≡ max (b.capacity * 2 % size_mod) want
  pub on_heap : b.capacity < want → is_small b'.data_ptr ≡ false

record Grown (b b' : LogBuffer) (n : ℕ) : Type 0 where
  valid : IsValid b'
  enough : b'.capacity ≡ n
  keeps : contents b' ≡ contents b
  same_cursor : b'.cursor ≡ b.cursor
  exact : length (storage b') ≡ n
  placed : is_small b'.data_ptr ≡ false

-- What a write of `value` leaves.
pub record Appended (b b' : LogBuffer) (value : List ℕ) : Type 0 where
  pub valid : IsValid b'
  pub appends : contents b' ≡ contents b ++ value
  pub moves : b'.cursor ≡ b.cursor + length value

put_at_end :
    (xs value : List ℕ) (c : ℕ)
    → c + length value ≤ length xs
    → take (c + length value) (take c xs ++ (value ++ drop (c + length value) xs))
      ≡ take c xs ++ value
put_at_end xs value c h =
    ap (take (c + length value)) (append_assoc_rev (take c xs) value (drop (c + length value) xs))
    ∙ take-append_len (c + length value) (take c xs ++ value) (drop (c + length value) xs)
        (omega (arith, length-append (take c xs) value, length-take c xs))
  where
    append_assoc_rev : (a b d : List ℕ) → a ++ (b ++ d) ≡ (a ++ b) ++ d
    append_assoc_rev a b d = rw append_assoc

-- A value stored at the end, with the cursor moved past it, is appended.
Stored-Appended :
    (b b' : LogBuffer) (value : List ℕ)
    → IsValid b
    → b.cursor + length value ≤ b.capacity
    → Stored b b'
        (take b.cursor (storage b) ++ (value ++ drop (b.cursor + length value) (storage b)))
    → Appended b (record b' { cursor = (b'.cursor + length value) % size_mod }) value
Stored-Appended b b' value v h s = record {
  valid = record {
    fits = omega (arith, next, s.same_capacity);
    room = omega (arith, length-overwritten (storage b) b.cursor value, ap length s.holds);
    small = omega arith;
    live = s.stays_live;
  };
  appends = rw (next, s.holds) (put_at_end (storage b) value b.cursor (omega arith));
  moves = next;
}
  where
    next : (b'.cursor + length value) % size_mod ≡ b.cursor + length value
    next = omega arith

Reserved-Appended :
    (b r b' : LogBuffer) (value : List ℕ) {want : ℕ}
    → Reserved b r want
    → Appended r b' value
    → Appended b b' value
Reserved-Appended b r b' value k a = record {
  valid = a.valid;
  appends = rw (← k.keeps) a.appends;
  moves = rw (← k.same_cursor) a.moves;
}

pub read_as-contents :
    (b : LogBuffer) (i n : ℕ)
    → IsValid b
    → i + n ≤ b.cursor
    → read_as b i n ≡ some (take n (drop i (contents b)))
read_as-contents b i n v h =
    read_as-some b i n (omega arith) ∙ ap some (sym (take-drop-take b.cursor i n (storage b) h))

-- The bytes of a value that was appended stand at the old end.
pub Appended-read :
    (b b' : LogBuffer) (value : List ℕ)
    → IsValid b
    → Appended b b' value
    → read_as b' b.cursor (length value) ≡ some value
Appended-read b b' value v a =
    read_as-contents b' b.cursor (length value) a.valid (omega arith)
    ∙ rw (a.appends, drop-append_len b.cursor (contents b) value (sym (length-contents b v)))
        (ap some (take-all (length value) value (omega arith)))

-- What was written before is read as before.
pub Appended-read_old :
    (b b' : LogBuffer) (value : List ℕ) (i n : ℕ)
    → IsValid b
    → i + n ≤ b.cursor
    → Appended b b' value
    → read_as b' i n ≡ read_as b i n
Appended-read_old b b' value i n v h a =
    read_as-contents b' i n a.valid (omega arith)
    ∙ rw (a.appends, take-drop-append i n (contents b) value (omega (arith, length-contents b v)))
        (sym (read_as-contents b i n v h))

module _ (malloc : ℕ → Option (List ℕ))
    (total : (n : ℕ) → (d : List ℕ) × (malloc n ≡ some d) × (length d ≡ n)) where
  grow-Reserved :
      (b : LogBuffer) (n : ℕ)
      → IsValid b
      → b.capacity ≤ n
      → n < 2 ^ 63
      → (b' : LogBuffer) × (grow malloc b n ≡ some b') × Grown b b' n
  unfolding grow size
  grow-Reserved b n v h small = (moved, grown, kept)
    where
      d : List ℕ
      d = (total n).0

      old : List ℕ
      old = take b.cursor (storage b)

      old_length : length old ≡ b.cursor
      old_length = length-contents b v

      moved : LogBuffer
      moved = record b { data_ptr = block (old ++ drop (length old) d); capacity = n }

      grown : grow malloc b n ≡ some moved
      grown = ground (
        arith,
        (total n).1,
        (total n).2,
        v.fits,
        v.room,
        read_as-some b 0 b.cursor,
        overwrite-some d 0 old,
        old_length,
      )

      kept : Grown b moved n
      kept = record {
        valid = record {
          fits = omega arith;
          room = omega (
            arith,
            (total n).2,
            old_length,
            length-append old (drop (length old) d),
            length-drop (length old) d,
          );
          small = small;
          live = tt;
        };
        enough = refl;
        exact = omega (
          arith,
          (total n).2,
          old_length,
          length-append old (drop (length old) d),
          length-drop (length old) d,
        );
        keeps = take-append_len b.cursor old (drop (length old) d) (sym old_length);
        same_cursor = refl;
        placed = unfold is_small in refl;
      }

  pub reserve-Reserved :
      (b : LogBuffer) (want : ℕ)
      → IsValid b
      → want ≤ 2 ^ 62
      → (b' : LogBuffer) × (reserve malloc b want ≡ some b') × Reserved b b' want
  unfolding reserve
  reserve-Reserved b want v small = elim (Bool-cases (leb want b.capacity)) [
    | inl e ↦ (
      b,
      rw e,
      record {
        valid = v;
        enough = ground arith;
        keeps = refl;
        same_cursor = refl;
        allocated = λ more. absurd (ground arith);
        on_heap = λ more. absurd (ground arith);
      },
    )
    | inr e ↦
        let n : ℕ = max (b.capacity * 2 % size_mod) want in
        let (b', grown, kept) = grow-Reserved b n v (ground arith) (ground arith) in
        (
          b',
          rw e grown,
          record {
            valid = kept.valid;
            enough = omega (arith, kept.enough);
            keeps = kept.keeps;
            same_cursor = kept.same_cursor;
            allocated = λ _. kept.exact;
            on_heap = λ _. kept.placed;
          },
        )
  ]

  -- `encode` of a value on a well-formed buffer, up to 2^62 bytes in all, does not fault: the value
  -- stands at the old end, and the contents are the old ones with the value's bytes behind them.
  pub encode-appends :
      (b : LogBuffer) (value : List ℕ)
      → IsValid b
      → b.cursor + length value ≤ 2 ^ 62
      → (b' : LogBuffer) × (encode malloc b value ≡ some (b.cursor, b')) × Appended b b' value
  unfolding encode size
  encode-appends b value v small =
      let (r, reserved, kept) = reserve-Reserved b (b.cursor + length value) v small in
      let (r', stored, s) =
        store_at-some r r.cursor value kept.valid.live
          (omega (arith, kept.valid.room, kept.enough, kept.same_cursor)) in
      (
        record r' { cursor = (r'.cursor + length value) % size_mod },
        ground (
          arith,
          reserved,
          stored,
          kept.same_cursor,
          mod-eq_of_lt {n = b.cursor + length value} {m = size_mod},
        ),
        Reserved-Appended b r _ value kept (
            Stored-Appended r r' value kept.valid (omega (arith, kept.enough, kept.same_cursor)) s),
      )

  pub encode_raw-eq-encode :
      (b : LogBuffer) (value : List ℕ) → encode_raw malloc b value ≡ encode malloc b value
  unfolding encode_raw encode
  encode_raw-eq-encode b value = refl

  -- Where memory can be had, a value written to a well-formed buffer that holds less than 2^32 bytes
  -- (and at most 2^62 with the value) is given an offset at which its bytes read back; the buffer
  -- stays well formed, the value's bytes stand behind the old contents, and every span of bytes that
  -- was written before reads as it did.
  pub read_as-write :
      (b : LogBuffer) (value : List ℕ)
      → IsValid b
      → b.cursor < 2 ^ 32
      → b.cursor + length value ≤ 2 ^ 62
      → (o : ℕ) × (b' : LogBuffer) × (write malloc b value ≡ some (o, b'))
        × (read_as b' o (length value) ≡ some value)
        × IsValid b'
        × (contents b' ≡ contents b ++ value)
        × ((i n : ℕ) → i + n ≤ b.cursor → read_as b' i n ≡ read_as b i n)
  unfolding write
  read_as-write b value v low small =
      let (b', e, a) = encode-appends b value v small in
      (
        b.cursor,
        b',
        rw (e, ◌>>=◌) (ground (arith, mod-eq_of_lt low)),
        Appended-read b b' value v a,
        a.valid,
        a.appends,
        λ i n h. Appended-read_old b b' value i n v h a,
      )
