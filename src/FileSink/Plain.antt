-- ===== src/FileSink/Plain.antt =====
-- The file of FileSink, src/FileSink.cpp, and its opening and closing.
--
-- What the system answers when directories are made and a stream is opened is a parameter; the stream
-- appends, and what a sink flushes stands in the file at once.
pub mod Written
mod Tests
use logpp.Common.{
  ℕ, ◌+◌, Bool, true, false, not, ◌&&◌, Option, none, some, List, [], ◌∷◌, ◌++◌, length,
  if◌then◌else◌, ◌>>=◌,
}
use logpp.Logger.{Entry}
use logpp.Format.{OnFormat}
use logpp.Options.{Text}
use logpp.Rolling.{FileSystem, put}
use logpp.Rolling.Filebuf.{appending, content}

-- `FileImpl`: whether m_ofs is set, and m_path.
pub record PlainFile : Type 0 where
  pub has_ofs : Bool
  pub path : Text

-- A FileSink over the files of the system.
pub record PlainSink : Type 0 where
  pub formatter : OnFormat
  pub file : Option PlainFile
  pub files : FileSystem

abbrev pub unopened : PlainFile
unopened = record { has_ofs = false; path = [] }

-- `FileImpl::isOpen`, `FileImpl::close` and `FileImpl::write`
unfoldable pub plain_is_open : PlainFile → Bool
plain_is_open f = f.has_ofs

unfoldable pub close_plain : PlainFile → PlainFile × Bool
close_plain f = if f.has_ofs then (record f { has_ofs = false }, true) else (f, false)

unfoldable pub write_plain : Text → PlainFile → FileSystem → FileSystem × ℕ
unfolding put
write_plain s f files =
    if f.has_ofs
    then (put f.path (some (content appending (files f.path) ++ s)) files, length s)
    else (files, 0)

-- `FileSink::isOpen` and `FileSink::close`
unfoldable pub sink_is_open : PlainSink → Bool
unfolding plain_is_open
sink_is_open s = elim s.file [ none ↦ false | some f ↦ plain_is_open f ]

unfoldable pub close_file : Option PlainFile → Option PlainFile × Bool
unfolding close_plain
close_file none = (none, false)
close_file (some f) = let r = close_plain f in (some r.0, r.1)

unfoldable pub close_sink : PlainSink → PlainSink × Bool
unfolding close_file
close_sink s = let r = close_file s.file in (record s { file = r.0 }, r.1)

-- `FileSink::sink`, for m_file.
unfoldable pub sink_file : Entry → Option PlainFile → PlainSink → Option PlainSink
unfolding write_plain
sink_file e none s = some s
sink_file e (some f) s = s.formatter e.name e.level e.buffer [] >>= λ format_buf.
    some (record s { files = (write_plain (10 ∷ []) f (write_plain format_buf f s.files).0).0 })

unfoldable pub plain_sink : Entry → PlainSink → Option PlainSink
unfolding sink_file
plain_sink e s = sink_file e s.file s

pub data PlainStep : Type 0 where
  open_step : Text → PlainStep
  close_step : PlainStep
  sink_step : Entry → PlainStep

-- `creates` says that `createDirectories` sets no error, `opens` that the stream is open.
module _ (creates opens : Text → Bool) where
  -- `FileImpl::open`
  unfoldable pub open_plain : Text → PlainFile → FileSystem → PlainFile × FileSystem × Bool
  unfolding put
  open_plain path f files =
      if f.has_ofs
      then (f, files, false)
      else if not (creates path)
      then (f, files, false)
      else if not (opens path)
      then (f, files, false)
      else (
        record { has_ofs = true; path = path },
        put path (some (content appending (files path))) files,
        true,
      )

  -- `FileSink::open`
  unfoldable pub open_sink : Text → PlainSink → PlainSink × Bool
  unfolding open_plain sink_is_open
  open_sink path s =
      let r = open_plain path unopened s.files in
      let s' : PlainSink = record s { file = some r.0; files = r.1 } in (s', sink_is_open s')

  unfoldable pub take_plain_step : PlainStep → PlainSink → Option PlainSink
  unfolding open_sink close_sink plain_sink
  take_plain_step (open_step path) s = some (open_sink path s).0
  take_plain_step close_step s = some (close_sink s).0
  take_plain_step (sink_step e) s = plain_sink e s

  unfoldable pub run_plain : List PlainStep → PlainSink → Option PlainSink
  unfolding take_plain_step
  run_plain [] s = some s
  run_plain (x ∷ xs) s = take_plain_step x s >>= λ s'. run_plain xs s'
