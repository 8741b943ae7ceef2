-- ===== src/Buffer/Tests.antt =====
-- The buffer at concrete inputs.
use logpp.Common.{
  ◌>>=◌, ℕ, ◌≡◌, ◌≢◌, refl, Option, none, some, List, [], ◌∷◌, ◌++◌, length, replicate,
  length-replicate, arith,
}
use logpp.Buffer.Bytes.{le_bytes, le_value}
use logpp.Buffer.{
  LogBuffer, block, encode, write, write_string, get_string, copy_construct, fresh, reserve,
  store_at, grow, encode_raw, encode_string,
}
use logpp.Buffer.Wellformed.{IsValid, contents}
use logpp.Buffer.Strings.{string_bytes, get_string-write_string}
use logpp.Buffer.Copy.{copy_construct-overruns}

-- Memory that comes zeroed.
abbrev zeroed : ℕ → Option (List ℕ)
zeroed n = some (replicate n 0)

zeroed-total : (n : ℕ) → (d : List ℕ) × (zeroed n ≡ some d) × (length d ≡ n)
zeroed-total n = (replicate n 0, refl, length-replicate n 0)

-- Nine bytes in a block of sixteen, of a buffer with four bytes inside.
abbrev outgrown : LogBuffer
outgrown = record {
  inline_data = 0 ∷ 0 ∷ 0 ∷ 0 ∷ [];
  data_ptr = block (1 ∷ 2 ∷ 3 ∷ 4 ∷ 5 ∷ 6 ∷ 7 ∷ 8 ∷ 9 ∷ 0 ∷ 0 ∷ 0 ∷ 0 ∷ 0 ∷ 0 ∷ 0 ∷ []);
  capacity = 16;
  cursor = 9;
}

outgrown-IsValid : IsValid outgrown
outgrown-IsValid = record { fits = omega arith; room = omega arith; small = omega arith; live = tt }

-- The first string fits the object, the second moves the bytes to the heap.
abbrev two_strings : Option (ℕ × ℕ × Option (List ℕ) × Option (List ℕ))
two_strings = do
  (_, b) ← write_string zeroed (fresh 8) (104 ∷ 105 ∷ [])
  (o, c) ← write_string zeroed b (98 ∷ 121 ∷ 101 ∷ [])
  some (o, c.capacity, get_string c 0, get_string c o)

two_strings_read : two_strings ≡ some (6, 16, some (104 ∷ 105 ∷ []), some (98 ∷ 121 ∷ 101 ∷ []))
unfolding write_string encode_string encode encode_raw reserve grow store_at get_string fresh
    le_bytes le_value
two_strings_read = refl

get_string-write_string_example :
    (o : ℕ) × (b' : LogBuffer) × (o' : ℕ) × (b'' : LogBuffer) × (write_string zeroed outgrown
        (104 ∷ 105 ∷ [])
      ≡ some (o, b'))
    × (get_string b' o ≡ some (104 ∷ 105 ∷ []))
    × (write zeroed b' (7 ∷ []) ≡ some (o', b''))
    × (get_string b'' o ≡ some (104 ∷ 105 ∷ []))
    × IsValid b''
    × (contents b'' ≡ contents outgrown ++ (string_bytes (104 ∷ 105 ∷ []) ++ (7 ∷ [])))
get_string-write_string_example =
    get_string-write_string zeroed zeroed-total outgrown (104 ∷ 105 ∷ []) (7 ∷ []) outgrown-IsValid
      (omega arith) (omega arith) (omega arith)

copy_construct-overruns_example :
    (c : LogBuffer) × (copy_construct zeroed 4 outgrown ≡ some c)
    × (encode zeroed c (7 ∷ []) ≡ none)
    × (encode zeroed outgrown (7 ∷ []) ≢ none)
copy_construct-overruns_example =
    copy_construct-overruns zeroed zeroed-total 4 outgrown (7 ∷ []) (omega arith) outgrown-IsValid
      (omega arith) (omega arith) (omega arith) (omega arith)
