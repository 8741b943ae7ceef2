-- ===== src/Buffer.antt =====
-- include/logpp/core/LogBuffer.h, src/LogBuffer.cpp and include/logpp/core/LogBufferView.h: the
-- byte buffer in which a log event is encoded. It starts in N bytes inside the object and moves to
-- a block of the heap when these do not suffice. `none` is an access out of bounds.
pub mod Bytes
pub mod Wellformed
pub mod Append
pub mod Strings
pub mod Copy
mod Tests
use logpp.Common.{
  ℕ, ◌+◌, ◌-◌, ◌*◌, ◌%◌, ◌^◌, max, Bool, true, false, Option, none, some, List, [], ◌++◌, leb,
  if◌then◌else◌, length, take, drop, replicate, ◌>>=◌,
}
use Bytes.{le_bytes, le_value}

-- What `m_data` points to: the object's own bytes, a block of the heap, nothing.
pub data Pointer : Type 0 where
  inlined : Pointer
  block : List ℕ → Pointer
  null : Pointer

pub record LogBuffer : Type 0 where
  pub inline_data : List ℕ
  pub data_ptr : Pointer
  pub capacity : ℕ
  pub cursor : ℕ

-- 2^64, the modulus of `size_t`, and 2^32, that of `OffsetType`.
abbrev pub size_mod : ℕ
size_mod = 2 ^ 64

abbrev pub offset_mod : ℕ
offset_mod = 2 ^ 32

-- `LogBuffer<N>()`
unfoldable pub fresh : ℕ → LogBuffer
fresh n = record { inline_data = replicate n 0; data_ptr = inlined; capacity = n; cursor = 0 }

abbrev pub bytes_at : Pointer → List ℕ → List ℕ
bytes_at inlined d = d
bytes_at (block c) d = c
bytes_at null d = []

-- All the bytes that `m_data` may address.
abbrev pub storage : LogBuffer → List ℕ
storage b = bytes_at b.data_ptr b.inline_data

abbrev pub replace_at : Pointer → List ℕ → LogBuffer → LogBuffer
replace_at inlined d b = record b { inline_data = d }
replace_at (block c) d b = record b { data_ptr = block d }
replace_at null d b = b

-- `memcpy(dst + i, src, n)` onto a block of bytes.
unfoldable pub overwrite : List ℕ → ℕ → List ℕ → Option (List ℕ)
overwrite dst i src =
    if leb (i + length src) (length dst)
    then some (take i dst ++ (src ++ drop (i + length src) dst))
    else none

-- The `n` bytes from index `i` on: `LogBufferView::readAs<T>` with `sizeof(T) == n`.
unfoldable pub read_as : LogBuffer → ℕ → ℕ → Option (List ℕ)
read_as b i n =
    if leb (i + n) (length (storage b)) then some (take n (drop i (storage b))) else none

unfoldable pub store_at : LogBuffer → ℕ → List ℕ → Option LogBuffer
unfolding overwrite
store_at b i src = do d ← overwrite (storage b) i src; some (replace_at b.data_ptr d b)

unfoldable pub size : LogBuffer → ℕ
size b = b.cursor

unfoldable pub advance : LogBuffer → ℕ → LogBuffer
advance b n = record b { cursor = (b.cursor + n) % size_mod }

-- `isSmall()`
unfoldable pub is_small : Pointer → Bool
is_small inlined = true
is_small _ = false

-- `malloc` answers with a block of the requested size, of any content, or with nothing.
module _ (malloc : ℕ → Option (List ℕ)) where
  -- `reserve` beyond the capacity: a failed allocation leaves the buffer as it was.
  unfoldable pub grow : LogBuffer → ℕ → Option LogBuffer
  unfolding overwrite read_as size
  grow b new_capacity = elim (malloc new_capacity) [
    | none ↦ some b
    | some d ↦ read_as b 0 (size b) >>= λ old.
        overwrite d 0 old >>= λ d'. some (record b { data_ptr = block d'; capacity = new_capacity })
  ]

  unfoldable pub reserve : LogBuffer → ℕ → Option LogBuffer
  reserve b want =
      if leb want b.capacity then some b else grow b (max (b.capacity * 2 % size_mod) want)

  -- `encode<T>(value)`, of a value given by its bytes: the index where it stands, and the buffer.
  unfoldable pub encode : LogBuffer → List ℕ → Option (ℕ × LogBuffer)
  unfolding size
  encode b value = reserve b ((size b + length value) % size_mod) >>= λ b'.
      store_at b' b'.cursor value >>= λ b''.
      some (b'.cursor, record b'' { cursor = (b''.cursor + length value) % size_mod })

  unfoldable pub encode_raw : LogBuffer → List ℕ → Option (ℕ × LogBuffer)
  unfolding size
  encode_raw b str = reserve b ((size b + length str) % size_mod) >>= λ b'.
      store_at b' b'.cursor str >>= λ b''.
      some (b'.cursor, record b'' { cursor = (b''.cursor + length str) % size_mod })

  -- `encodeString`: the length as an `OffsetType`, then the bytes.
  unfoldable pub encode_string : LogBuffer → List ℕ → Option (ℕ × LogBuffer)
  encode_string b str = do
    (index, b') ← encode b (le_bytes 4 (length str % offset_mod))
    (_, b'') ← encode_raw b' str
    some (index, b'')

  -- `write<T>`, and `write` of a string: the offset is cut to 32 bits.
  unfoldable pub write : LogBuffer → List ℕ → Option (ℕ × LogBuffer)
  write b value = do (index, b') ← encode b value; some (index % offset_mod, b')

  unfoldable pub write_string : LogBuffer → List ℕ → Option (ℕ × LogBuffer)
  write_string b str = do (index, b') ← encode_string b str; some (index % offset_mod, b')

  -- `operator=(const LogBuffer&)`
  unfoldable pub copy_assign : LogBuffer → LogBuffer → Option LogBuffer
  unfolding read_as size advance
  copy_assign b other = do
    b' ← reserve b (size other)
    src ← read_as other 0 (size other)
    b'' ← store_at b' 0 src
    some (record (advance b'' other.cursor) { capacity = other.capacity })

  -- `LogBuffer(const LogBuffer&)`, of a `LogBuffer<N>` with N = `n`.
  unfoldable pub copy_construct : ℕ → LogBuffer → Option LogBuffer
  copy_construct n other = copy_assign (fresh n) other

-- `StringOffset::get`: the length at the offset, then as many bytes behind it.
unfoldable pub get_string : LogBuffer → ℕ → Option (List ℕ)
unfolding read_as
get_string b offset = do n ← read_as b offset 4; read_as b (offset + 4) (le_value n)

-- `operator=(LogBuffer&&)`: the target, then what is left of the source.
unfoldable pub move_assign : LogBuffer → LogBuffer → Option (LogBuffer × LogBuffer)
unfolding read_as overwrite size advance is_small
move_assign b other =
    if is_small other.data_ptr
    then (read_as other 0 (size other) >>= λ src. overwrite b.inline_data 0 src >>= λ d.
        some (finish (record b { inline_data = d; data_ptr = inlined }), other))
    else some (finish (record b { data_ptr = other.data_ptr }), record other { data_ptr = null })
  where
    finish : LogBuffer → LogBuffer
    finish b' = record (advance b' other.cursor) { capacity = other.capacity }

-- `LogBuffer(LogBuffer&&)`
unfoldable pub move_construct : ℕ → LogBuffer → Option (LogBuffer × LogBuffer)
move_construct n other = move_assign (fresh n) other
