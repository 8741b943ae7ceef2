-- ===== src/Event.antt =====
-- include/logpp/core/EventLogBuffer.h and include/logpp/core/Offset.h: a log event as it is written
-- into its byte buffer, and read back by a formatter.
--
-- The header is the first `header_size` bytes of the buffer. Only `decodeHeader` reaches them, so they
-- are kept as a record beside the buffer. A type-erased function pointer of the header is the list of
-- the types (`Kind`) of the block that it was made for; a null pointer is `none`. Where C++ leaves
-- the order of evaluation open (`make_tuple(write(...)...)`), arguments are written from the left.
pub mod Values
pub mod Blocks
pub mod Text
pub mod Fields
pub mod Location
use logpp.Common.{
  ℕ, zero, suc, ◌+◌, ◌*◌, ◌%◌, Option, none, some, List, [], ◌∷◌, ◌++◌, map, length, take, drop,
  replicate, ◌>>=◌, if◌then◌else◌, ltb, ◌==◌,
}
use logpp.Buffer.Bytes.{le_bytes, le_value}
use logpp.Buffer.{
  LogBuffer, read_as, fresh, advance, encode, write, write_string, get_string, offset_mod,
}

-- What can be written: a string, a `StringLiteral` (its address), the bytes of a scalar.
pub data Value : Type 0 where
  text : List ℕ → Value
  literal : ℕ → Value
  scalar : List ℕ → Value

-- The type of the offset that `write` returns: `StringOffset`, `StringLiteralOffset`, `Offset<T>`.
pub data Kind : Type 0 where
  text_kind literal_kind : Kind
  scalar_kind : ℕ → Kind

abbrev pub kind_of : Value → Kind
kind_of (text s) = text_kind
kind_of (literal p) = literal_kind
kind_of (scalar bs) = scalar_kind (length bs)

pub record Field : Type 0 where
  pub key : Value
  pub value : Value

-- `std::string_view`: the address of the first byte, and the count of bytes.
pub record StringView : Type 0 where
  pub data_at : ℕ
  pub size : ℕ

pub record SourceLocation : Type 0 where
  pub file : StringView
  pub line : ℕ

pub record Header : Type 0 where
  pub time_point : ℕ
  pub thread_id : ℕ
  pub text_block_index : ℕ
  pub format_func : Option (List Kind)
  pub source_location_block_index : ℕ
  pub fields_count : ℕ
  pub fields_block_index : ℕ
  pub fields_visit_func : Option (List (Kind × Kind))

pub record EventLogBuffer : Type 0 where
  pub header : Header
  pub buffer : LogBuffer

-- `sizeof(Header)` with 8-byte pointers and time points and 4-byte thread ids.
abbrev pub header_size : ℕ
header_size = 48

-- `Offset<T>::get`
unfoldable pub get : LogBuffer → Kind → ℕ → Option Value
get b text_kind o = do s ← get_string b o; some (text s)
get b literal_kind o = do bs ← read_as b o 8; some (literal (le_value bs))
get b (scalar_kind n) o = do bs ← read_as b o n; some (scalar bs)

-- A block is the offsets that it holds, four bytes each; an empty tuple takes `pad` bytes.
unfoldable pub block_bytes : List ℕ → List ℕ
block_bytes [] = []
block_bytes (o ∷ os) = le_bytes 4 o ++ block_bytes os

unfoldable pub split_block : ℕ → List ℕ → List ℕ
split_block zero bs = []
split_block (suc n) bs = le_value (take 4 bs) ∷ split_block n (drop 4 bs)

-- `overlayAs<Block>(index)`, for a block of `n` offsets.
unfoldable pub overlay_block : LogBuffer → ℕ → ℕ → Option (List ℕ)
overlay_block b index n = do bs ← read_as b index (n * 4); some (split_block n bs)

unfoldable pub get_all : LogBuffer → List Kind → List ℕ → Option (List Value)
get_all b [] os = some []
get_all b (k ∷ ks) [] = none
get_all b (k ∷ ks) (o ∷ os) = get b k o >>= λ v. get_all b ks os >>= λ vs. some (v ∷ vs)

-- `FieldsBlock::visit`: the key and the value of each field, in order.
unfoldable pub visit : LogBuffer → List (Kind × Kind) → List ℕ → Option (List Field)
visit b [] os = some []
visit b ((k, l) ∷ ks) (o ∷ p ∷ os) = get b k o >>= λ key.
    get b l p >>= λ value. visit b ks os >>= λ fs. some (record { key = key; value = value } ∷ fs)
visit b ((k, l) ∷ ks) (o ∷ []) = none
visit b ((k, l) ∷ ks) [] = none

abbrev pub field_kinds : List Field → List (Kind × Kind)
field_kinds [] = []
field_kinds (f ∷ fs) = (kind_of f.key, kind_of f.value) ∷ field_kinds fs

-- What an empty tuple adds to a text block, and the one byte of an empty fields block.
abbrev pub args_padding : List Value → List ℕ
args_padding [] = replicate 4 0
args_padding (v ∷ vs) = []

abbrev pub fields_padding : List Field → List ℕ
fields_padding [] = replicate 1 0
fields_padding (f ∷ fs) = []

module _ (malloc : ℕ → Option (List ℕ)) where
  unfoldable pub write_value : LogBuffer → Value → Option (ℕ × LogBuffer)
  write_value b (text s) = write_string malloc b s
  write_value b (literal p) = write malloc b (le_bytes 8 p)
  write_value b (scalar bs) = write malloc b bs

  -- `writeFormatArgs`: the offsets of the arguments.
  unfoldable pub write_format_args : LogBuffer → List Value → Option (List ℕ × LogBuffer)
  write_format_args b [] = some ([], b)
  write_format_args b (v ∷ vs) =
      write_value b v >>= λ r. write_format_args r.1 vs >>= λ s. some (r.0 ∷ s.0, s.1)

  -- `writeAll`: for each field the offsets of its key and of its value.
  unfoldable pub write_all : LogBuffer → List Field → Option (List ℕ × LogBuffer)
  write_all b [] = some ([], b)
  write_all b (f ∷ fs) = write_value b f.key >>= λ r.
      write_value r.1 f.value >>= λ s. write_all s.1 fs >>= λ t. some (r.0 ∷ s.0 ∷ t.0, t.1)

  -- `writeText`, of a text with its format arguments; of a plain text there are none.
  unfoldable pub write_text : EventLogBuffer → List ℕ → List Value → Option EventLogBuffer
  write_text e str args = do
    (o, b) ← write_string malloc e.buffer str
    (os, c) ← write_format_args b args
    (index, d) ← encode malloc c (block_bytes (o ∷ os) ++ args_padding args)
    some (record {
      header = record e.header {
        text_block_index = index % offset_mod;
        format_func = some (map kind_of args);
      };
      buffer = d;
    })

  unfoldable pub write_source_location : EventLogBuffer → SourceLocation → Option EventLogBuffer
  write_source_location e location = do
    (file_offset, b) ← write malloc e.buffer (le_bytes 8 location.file.data_at)
    (line_offset, c) ← write malloc b (le_bytes 8 location.line)
    (index, d) ← encode malloc c (block_bytes (file_offset ∷ line_offset ∷ []))
    some (record {
      header = record e.header { source_location_block_index = index % offset_mod };
      buffer = d;
    })

  unfoldable pub write_fields : EventLogBuffer → List Field → Option EventLogBuffer
  write_fields e fields = do
    (os, b) ← write_all e.buffer fields
    (index, c) ← encode malloc b (block_bytes os ++ fields_padding fields)
    some (record {
      header = record e.header {
        fields_count = length fields % 256;
        fields_block_index = index % offset_mod;
        fields_visit_func = some (field_kinds fields);
      };
      buffer = c;
    })

-- `EventLogBuffer()`: the bytes of the object are zero before the constructor's body runs.
unfoldable pub new_event : EventLogBuffer
new_event = record {
  header = record {
    time_point = 0;
    thread_id = 0;
    text_block_index = 0;
    format_func = none;
    source_location_block_index = 0;
    fields_count = 0;
    fields_block_index = 0;
    fields_visit_func = none;
  };
  buffer = advance (fresh 256) header_size;
}

unfoldable pub write_time : EventLogBuffer → ℕ → EventLogBuffer
write_time e time = record e { header = record e.header { time_point = time } }

unfoldable pub write_thread_id : EventLogBuffer → ℕ → EventLogBuffer
write_thread_id e id = record e { header = record e.header { thread_id = id } }

-- `visitFields`: no visit at all where the header counts no field.
unfoldable pub visit_fields : EventLogBuffer → Option (List Field)
visit_fields e =
    if ltb 0 e.header.fields_count
    then (e.header.fields_visit_func >>= λ kinds.
        overlay_block e.buffer e.header.fields_block_index (length kinds * 2) >>= λ os.
        visit e.buffer kinds os)
    else some []

-- A text with no argument is appended as it is; fmt's formatter has the others.
abbrev pub apply_format : (List ℕ → List Value → List ℕ) → List Value → Option (List ℕ)
apply_format format_to (text s ∷ []) = some s
apply_format format_to (text s ∷ v ∷ vs) = some (format_to s (v ∷ vs))
apply_format format_to _ = none

-- `formatText`, with fmt's formatter for texts that have arguments.
unfoldable pub format_text : (List ℕ → List Value → List ℕ) → EventLogBuffer → Option (List ℕ)
format_text format_to e = e.header.format_func >>= λ kinds.
    overlay_block e.buffer e.header.text_block_index (suc (length kinds)) >>= λ os.
    get_all e.buffer (text_kind ∷ kinds) os >>= λ vs. apply_format format_to vs

-- The view of the literal at an address, where `strlen` has the bytes before the first NUL.
abbrev pub decode_location : (ℕ → ℕ) → List Value → Option (Option SourceLocation)
decode_location strlen (literal p ∷ scalar bs ∷ []) =
    some (some (record { file = record { data_at = p; size = strlen p }; line = le_value bs }))
decode_location strlen _ = none

-- `location()`
unfoldable pub location : (ℕ → ℕ) → EventLogBuffer → Option (Option SourceLocation)
location strlen e =
    let read = overlay_block e.buffer e.header.source_location_block_index 2 >>= λ os.
    get_all e.buffer (literal_kind ∷ scalar_kind 8 ∷ []) os >>= λ vs. decode_location strlen vs in
    if e.header.source_location_block_index == 0 then some none else read
