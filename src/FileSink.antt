-- ===== src/FileSink.antt =====
-- src/RollingFileSink.cpp and src/FileSink.cpp: sinks that write the formatted event and a line feed to a
-- file, which the rolling sink archives first if its policy says so.
--
-- A `File` is its stream with the files of the system, and whether m_rofs is set. `put` goes to the buffer
-- of the stream and not through `xsputn`; what is flushed stands in the file at once. The hooks
-- onAfterOpened and onBeforeClosing do nothing.
pub mod History
pub mod Sizes
pub mod Settings
pub mod Plain
mod Tests
use logpp.Common.{
  ℕ, ◌+◌, Bool, true, false, ◌&&◌, Option, none, some, List, [], ◌∷◌, ◌++◌, length, if◌then◌else◌,
  ◌>>=◌,
}
use logpp.Level.{LogLevel}
use logpp.Logger.{Entry}
use logpp.Format.{OnFormat}
use logpp.Rolling.Filebuf.{
  manual, RollingPolicy, RollingFilebuf, put_bytes, can_roll, roll, xsputn, tell,
}

pub record File (S : Type 0) : Type 0 where
  pub has_rofs : Bool
  pub buf : RollingFilebuf S

-- `FileSink`, and `RollingFileSink`.
pub record FileSink (S : Type 0) : Type 0 where
  pub formatter : OnFormat
  pub file : Option (File S)

-- When the clock is read: by `canRoll`, by `roll`, and by `write`.
pub record Times : Type 0 where
  pub at_check : ℕ
  pub at_roll : ℕ
  pub at_write : ℕ

module _ {S : Type 0} where
  unfoldable pub is_open : File S → Bool
  is_open f = f.has_rofs && f.buf.opened

  -- `FileImpl::close`
  unfoldable pub close : File S → File S × Bool
  close f =
      if f.has_rofs
      then (record f { has_rofs = false; buf = record f.buf { opened = false } }, true)
      else (f, false)

  -- `FileImpl::write` of one character, and `FileImpl::size`; `none` is the -1 of a stream that is closed.
  unfoldable pub write_char : File S → ℕ → File S × ℕ
  unfolding put_bytes
  write_char f c = if f.has_rofs then (record f { buf = put_bytes f.buf (c ∷ []) }, 1) else (f, 0)

  unfoldable pub file_size : File S → Option ℕ
  unfolding tell
  file_size f = if f.has_rofs then tell f.buf else some 0

  module _ (policy : RollingPolicy S)
      (archive_policy : ℕ → RollingFilebuf S → Option (RollingFilebuf S)) where
    -- `FileImpl::write`: the stream is in mode `manual`.
    unfoldable pub write_data : ℕ → File S → List ℕ → Option (File S × ℕ)
    unfolding xsputn
    write_data now f s =
        if f.has_rofs
        then (xsputn policy archive_policy manual now f.buf s >>= λ b.
            some (record f { buf = b }, length s))
        else some (f, 0)

    unfoldable pub file_can_roll : ℕ → File S → Bool
    unfolding can_roll
    file_can_roll now f = f.has_rofs && can_roll policy archive_policy now f.buf

    unfoldable pub file_roll : ℕ → File S → Option (File S)
    unfolding roll
    file_roll now f =
        if f.has_rofs
        then (roll policy archive_policy now f.buf >>= λ b. some (record f { buf = b }))
        else some f

    -- `FileSink::sink`
    unfoldable pub file_sink : ℕ → FileSink S → Entry → Option (FileSink S)
    unfolding write_data write_char
    file_sink now sink entry = elim sink.file [
      | none ↦ some sink
      | some f ↦ sink.formatter entry.name entry.level entry.buffer [] >>= λ format_buf.
          write_data now f format_buf >>= λ r.
          some (record sink { file = some (write_char r.0 10).0 })
    ]

    -- `RollingFileSink::sink`
    unfoldable pub rolling_sink : Times → FileSink S → Entry → Option (FileSink S)
    unfolding file_can_roll file_roll file_sink
    rolling_sink times sink entry = elim sink.file [
      | none ↦ some sink
      | some f ↦
          let rolled = file_roll times.at_roll f in
          (if file_can_roll times.at_check f then rolled else some f) >>= λ f'.
          file_sink times.at_write (record sink { file = some f' }) entry
    ]

    -- A list of entries, each with its times.
    unfoldable pub sink_entries : FileSink S → List (Times × Entry) → Option (FileSink S)
    unfolding rolling_sink
    sink_entries sink [] = some sink
    sink_entries sink (x ∷ xs) = rolling_sink x.0 sink x.1 >>= λ sink'. sink_entries sink' xs
