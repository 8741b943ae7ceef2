-- ===== src/Buffer/Strings.antt =====
-- Strings in the buffer: what `writeString` writes, `StringOffset::get` reads back, also when more
-- has been written since.
use native.Mathlib.Nat.{mod-eq_of_lt}
use logpp.Common.{
  ℕ, ◌+◌, ◌%◌, ◌^◌, ◌≤◌, ◌<◌, ◌≡◌, ◌∙◌, subst, Option, some, List, ◌++◌, length, length-append,
  arith, ◌>>=◌, append_assoc,
}
use logpp.Buffer.Bytes.{le_bytes, length-le_bytes, le_value-le_bytes}
use logpp.Buffer.{LogBuffer, read_as, encode_string, write, write_string, get_string, offset_mod}
use logpp.Buffer.Wellformed.{IsValid, contents}
use logpp.Buffer.Append.{
  Appended, Appended-read, Appended-read_old, encode-appends, encode_raw-eq-encode,
}

-- The bytes that stand for a string.
abbrev pub string_bytes : List ℕ → List ℕ
string_bytes str = le_bytes 4 (length str) ++ str

Appended-trans :
    (a b c : LogBuffer) (v w : List ℕ) → Appended a b v → Appended b c w → Appended a c (v ++ w)
Appended-trans a b c v w p q = record {
  valid = q.valid;
  appends = q.appends ∙ rw p.appends (append_assoc (contents a) v w);
  moves = omega (arith, p.moves, q.moves, length-append v w);
}

-- A string stands at an offset.
pub record Holds (b : LogBuffer) (o : ℕ) (str : List ℕ) : Type 0 where
  pub short : length str < 2 ^ 32
  pub prefix : read_as b o 4 ≡ some (le_bytes 4 (length str))
  pub body : read_as b (o + 4) (length str) ≡ some str

pub Holds-get_string :
    {b : LogBuffer} {o : ℕ} {str : List ℕ} → Holds b o str → get_string b o ≡ some str
unfolding get_string
Holds-get_string {str} h = rw (h.prefix, ◌>>=◌, le_value-le_bytes 4 (length str) h.short) h.body

-- A string that ends before the cursor stands there after a write too.
pub Holds-Appended :
    (b b' : LogBuffer) (value : List ℕ) (o : ℕ) (str : List ℕ)
    → IsValid b
    → Appended b b' value
    → o + 4 + length str ≤ b.cursor
    → Holds b o str
    → Holds b' o str
Holds-Appended b b' value o str v a inside h = record {
  short = h.short;
  prefix = Appended-read_old b b' value o 4 v (omega arith) a ∙ h.prefix;
  body = Appended-read_old b b' value (o + 4) (length str) v inside a ∙ h.body;
}

module _ (malloc : ℕ → Option (List ℕ))
    (total : (n : ℕ) → (d : List ℕ) × (malloc n ≡ some d) × (length d ≡ n)) where
  pub encode_string-appends :
      (b : LogBuffer) (str : List ℕ)
      → IsValid b
      → length str < 2 ^ 32
      → b.cursor + 4 + length str ≤ 2 ^ 62
      → (b' : LogBuffer) × (encode_string malloc b str ≡ some (b.cursor, b'))
        × Appended b b' (string_bytes str)
        × Holds b' b.cursor str
  unfolding encode_string
  encode_string-appends b str v short small =
      let prefix : List ℕ = le_bytes 4 (length str) in
      let four : length prefix ≡ 4 = length-le_bytes 4 (length str) in
      let cut : length str % offset_mod ≡ length str = mod-eq_of_lt short in
      let (c, e, p) = encode-appends malloc total b prefix v (omega arith) in
      let (d, e', q) = encode-appends malloc total c str p.valid (omega (arith, p.moves)) in
      (
        d,
        ground (arith, cut, e, e', encode_raw-eq-encode malloc total c str),
        Appended-trans b c d prefix str p q,
        record {
          short = short;
          prefix =
              Appended-read_old c d str b.cursor 4 p.valid (omega (arith, p.moves, four)) q
              ∙ subst (λ k. read_as c b.cursor k ≡ some prefix) four (Appended-read b c prefix v p);
          body =
              subst (λ k. read_as d k (length str) ≡ some str) (omega (arith, p.moves, four))
                (Appended-read c d str p.valid q);
        },
      )

  -- Where memory can be had, a string of less than 2^32 bytes, written to a well-formed buffer that
  -- holds less than 2^32 bytes, is given an offset at which it reads back, and still does after one
  -- more value has been written; the buffer then is well formed, and holds the old contents, the
  -- string's length and bytes, and the value.
  pub get_string-write_string :
      (b : LogBuffer) (str value : List ℕ)
      → IsValid b
      → b.cursor < 2 ^ 32
      → length str < 2 ^ 32
      → length value < 2 ^ 32
      → (o : ℕ) × (b' : LogBuffer) × (o' : ℕ) × (b'' : LogBuffer) × (write_string malloc b str
          ≡ some (o, b'))
        × (get_string b' o ≡ some str)
        × (write malloc b' value ≡ some (o', b''))
        × (get_string b'' o ≡ some str)
        × IsValid b''
        × (contents b'' ≡ contents b ++ (string_bytes str ++ value))
  unfolding write_string write
  get_string-write_string b str value v low short small =
      let (b', e, a, found) = encode_string-appends b str v short (omega arith) in
      let four : length (le_bytes 4 (length str)) ≡ 4 = length-le_bytes 4 (length str) in
      let moved : b'.cursor ≡ b.cursor + 4 + length str =
        omega (arith, a.moves, four, length-append (le_bytes 4 (length str)) str) in
      let (b'', e', a') = encode-appends malloc total b' value a.valid (omega arith) in
      (
        b.cursor,
        b',
        b'.cursor % offset_mod,
        b'',
        rw (e, ◌>>=◌) (ground (arith, mod-eq_of_lt low)),
        Holds-get_string found,
        rw (e', ◌>>=◌),
        Holds-get_string (Holds-Appended b' b'' value b.cursor str a.valid a' (omega arith) found),
        a'.valid,
        a'.appends ∙ rw a.appends (append_assoc (contents b) (string_bytes str) value),
      )
