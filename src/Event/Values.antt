-- ===== src/Event/Values.antt =====
-- What stands in a buffer once it has been written, and that later writes keep it.
use native.Mathlib.Nat.{mod-eq_of_lt}
use logpp.Common.{
  ℕ, ◌+◌, ◌^◌, ◌≤◌, ◌<◌, ◌≡◌, ◌∙◌, subst, Option, some, List, length, ◌>>=◌, length-append, arith,
}
use logpp.Buffer.Bytes.{le_bytes, length-le_bytes, le_value-le_bytes}
use logpp.Buffer.{LogBuffer, read_as, encode, write, write_string}
use logpp.Buffer.Wellformed.{IsValid}
use logpp.Buffer.Append.{Appended, Appended-read, Appended-read_old, encode-appends}
use logpp.Buffer.Strings.{Holds, Holds-get_string, encode_string-appends, string_bytes}
use logpp.Event.{Value, text, literal, scalar, kind_of, get, write_value}

-- Everything that was written stays readable.
pub record Extends (b b' : LogBuffer) : Type 0 where
  pub valid : IsValid b'
  pub grows : b.cursor ≤ b'.cursor
  pub reads : (i n : ℕ) → i + n ≤ b.cursor → read_as b' i n ≡ read_as b i n

pub Extends-trans : {a b c : LogBuffer} → Extends a b → Extends b c → Extends a c
Extends-trans p q = record {
  valid = q.valid;
  grows = omega (arith, p.grows, q.grows);
  reads = λ i n h. q.reads i n (omega (arith, p.grows)) ∙ p.reads i n h;
}

pub Appended-Extends :
    {b b' : LogBuffer} (value : List ℕ) → IsValid b → Appended b b' value → Extends b b'
Appended-Extends {b} {b'} value v a = record {
  valid = a.valid;
  grows = omega arith;
  reads = λ i n h. Appended-read_old b b' value i n v h a;
}

-- A list of bytes stands at an offset.
pub record At (b : LogBuffer) (o : ℕ) (bs : List ℕ) : Type 0 where
  pub within : o + length bs ≤ b.cursor
  pub found : read_as b o (length bs) ≡ some bs

pub At-Extends : {b b' : LogBuffer} {o : ℕ} {bs : List ℕ} → Extends b b' → At b o bs → At b' o bs
At-Extends {o} {bs} e a = record {
  within = omega (arith, e.grows, a.within);
  found = e.reads o (length bs) a.within ∙ a.found;
}

-- A value stands at an offset.
abbrev pub Stands : LogBuffer → ℕ → Value → Type 0
Stands b o (text s) = (o + 4 + length s ≤ b.cursor) × Holds b o s
Stands b o (literal p) = (p < 2 ^ 64) × (o + 8 ≤ b.cursor) × (read_as b o 8 ≡ some (le_bytes 8 p))
Stands b o (scalar bs) = At b o bs

pub Stands-get : (b : LogBuffer) (o : ℕ) (v : Value) → Stands b o v → get b (kind_of v) o ≡ some v
unfolding get
Stands-get b o (text s) h = rw (Holds-get_string h.1)
Stands-get b o (literal p) h = rw (h.2, ◌>>=◌, le_value-le_bytes 8 p h.0)
Stands-get b o (scalar bs) h = rw h.found

pub Stands-Extends :
    {b b' : LogBuffer} (o : ℕ) (v : Value) → Extends b b' → Stands b o v → Stands b' o v
Stands-Extends o (text s) e (h, k) = (
  omega (arith, e.grows),
  record {
    short = k.short;
    prefix = e.reads o 4 (omega arith) ∙ k.prefix;
    body = e.reads (o + 4) (length s) h ∙ k.body;
  },
)
Stands-Extends o (literal p) e h = (h.0, omega (arith, e.grows, h.1), e.reads o 8 h.1 ∙ h.2)
Stands-Extends o (scalar bs) e h = At-Extends e h

-- How many bytes a value takes, and which values fit their types.
abbrev pub value_size : Value → ℕ
value_size (text s) = 4 + length s
value_size (literal p) = 8
value_size (scalar bs) = length bs

abbrev pub IsWritable : Value → Type 0
IsWritable (text s) = length s < 2 ^ 32
IsWritable (literal p) = p < 2 ^ 64
IsWritable (scalar bs) = Unit {0}

module _ (malloc : ℕ → Option (List ℕ))
    (total : (n : ℕ) → (d : List ℕ) × (malloc n ≡ some d) × (length d ≡ n)) where
  pub encode-At :
      (b : LogBuffer) (bs : List ℕ)
      → IsValid b
      → b.cursor + length bs ≤ 2 ^ 62
      → (b' : LogBuffer) × (encode malloc b bs ≡ some (b.cursor, b'))
        × Extends b b'
        × At b' b.cursor bs
        × (b'.cursor ≡ b.cursor + length bs)
  encode-At b bs v small =
      let (b', e, a) = encode-appends malloc total b bs v small in
      (
        b',
        e,
        Appended-Extends bs v a,
        record { within = omega arith; found = Appended-read b b' bs v a },
        a.moves,
      )

  pub write-At :
      (b : LogBuffer) (bs : List ℕ)
      → IsValid b
      → b.cursor < 2 ^ 32
      → b.cursor + length bs ≤ 2 ^ 62
      → (b' : LogBuffer) × (write malloc b bs ≡ some (b.cursor, b'))
        × Extends b b'
        × At b' b.cursor bs
        × (b'.cursor ≡ b.cursor + length bs)
  unfolding write
  write-At b bs v low small =
      let (b', e, x, a, m) = encode-At b bs v small in
      (b', rw (e, ◌>>=◌) (ground (arith, mod-eq_of_lt low)), x, a, m)

  pub write_string-Stands :
      (b : LogBuffer) (s : List ℕ)
      → IsValid b
      → length s < 2 ^ 32
      → b.cursor < 2 ^ 32
      → (b' : LogBuffer) × (write_string malloc b s ≡ some (b.cursor, b'))
        × Extends b b'
        × Stands b' b.cursor (text s)
        × (b'.cursor ≡ b.cursor + (4 + length s))
  unfolding write_string
  write_string-Stands b s v short low =
      let (b', e, a, h) = encode_string-appends malloc total b s v short (omega arith) in
      let four : length (le_bytes 4 (length s)) ≡ 4 = length-le_bytes 4 (length s) in
      let moved : b'.cursor ≡ b.cursor + (4 + length s) =
        omega (arith, a.moves, four, length-append (le_bytes 4 (length s)) s) in
      (
        b',
        rw (e, ◌>>=◌) (ground (arith, mod-eq_of_lt low)),
        Appended-Extends (string_bytes s) v a,
        (omega arith, h),
        moved,
      )

  pub write_value-Stands :
      (b : LogBuffer) (v : Value)
      → IsValid b
      → IsWritable v
      → b.cursor + value_size v < 2 ^ 32
      → (b' : LogBuffer) × (write_value malloc b v ≡ some (b.cursor, b'))
        × Extends b b'
        × Stands b' b.cursor v
        × (b'.cursor ≡ b.cursor + value_size v)
  unfolding write_value
  write_value-Stands b (text s) v w small = write_string-Stands b s v w (omega arith)
  write_value-Stands b (literal p) v w small =
      let eight : length (le_bytes 8 p) ≡ 8 = length-le_bytes 8 p in
      let (b', e, x, a, m) = write-At b (le_bytes 8 p) v (omega arith) (omega arith) in
      (
        b',
        e,
        x,
        (
          w,
          omega (arith, a.within),
          subst (λ n. read_as b' b.cursor n ≡ some (le_bytes 8 p)) eight a.found,
        ),
        omega arith,
      )
  write_value-Stands b (scalar bs) v w small = write-At b bs v (omega arith) (omega arith)
