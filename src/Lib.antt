-- ===== src/Lib.antt =====
-- A verification of logpp, a structured logging library in C++17.
--
-- A program logs through a Logger (include/logpp/core/Logger.h), which drops what is below its level,
-- encodes the rest in an EventLogBuffer, and passes that on to its sink. The event is bytes: the
-- text, the arguments and the fields are written one behind the other, and blocks of 32-bit offsets
-- say where they stand. Sinks filter by level, distribute, and write, to files that may be rolled. The
-- registry hands out loggers by name, along the dots of the name, and makes loggers for names that
-- nobody has registered.
--
-- Files:
--   Common     the names and lemmas that the parts share; lists over the native numbers
--   Buffer     LogBuffer.h, LogBuffer.cpp, LogBufferView.h, Offset.h: `reserve`, `encode`, `writeString`,
--              copy and move. `LogBuffer` is the object: its inline bytes, what m_data points to, the
--              capacity and the cursor. malloc is a parameter that may fail
--   Level      LogLevel.h, iequals of utils/string.h
--   Sinks      MultiSink.h, LevelSink.h: the tree of sinks; other sinks are terminals, by number
--   Event      EventLogBuffer.h: header, text, location, fields. fmt and strlen are parameters; the lambdas
--              that the templates make are the kinds of the values they decode
--   Logger     Logger.h: the level, the sink, `log` with and without a location
--   Registry   LoggerRegistry.h and .cpp: Key is LoggerKey and its iterators, Free the functions of
--              logpp.h. Loggers stand in a store and are shared by their index, as shared_ptr does
--   Rolling    sinks/file/RollingOfstream.h: Paths and Shift are ArchiveIncremental::archive, Policy the
--              rolling policies, Filebuf the stream buffer with the archive policies
--   Pattern    src/PatternFormatter.cpp: the parser of patterns. Grammar is the independent description,
--              tokens and what they mean
--   Options    sinks/Sink.h: the options of a sink
--   Config     src/TomlConfigurator.cpp: the configuration from the parsed table. Hierarchy is what loggers take
--              from their parents, Apply what goes to the registry, and the reload of a watched file;
--              Apply/Whole is configure from the table to the loggers
--   Format     format/Formatter.h, format/flag/, PatternFormatter::doFormat: what is printed for an event. Pairs
--              has a reader of `key=value` lines
--   LogFmt     src/LogFmtFormatter.cpp: the parser of logfmt patterns and its tree of formatters. Grammar is
--              the independent description of the patterns, entries and what they mean
--   Env        utils/env.h: the expansion of environment variables
--   FileSink   src/RollingFileSink.cpp, src/FileSink.cpp: Settings is activateOptions, with those of
--              FormatSink.h, Sizes parseSize and parseDuration of utils/string.h, Plain the file of FileSink
--   Poller     src/AsyncQueuePoller.cpp and queue/SimpleTypedBlockingQueue.h: the poller's calls and the
--              rounds of its thread, as steps on one state
--   Watcher    config/FileWatcher.h, src/FileWatcher.cpp, config/impl/FileWatcherLinuxImpl.h: the watches of
--              files, over the answers of inotify, and the queue that the poller polls
--   Console    sinks/Console.h, sinks/ColoredConsole.h: the consoles and their themes
--   DateUtils  utils/date.h: rounding to months and years, over the date library as a record
--   SpinWait   src/SpinWait.cpp, src/SpinWait.h: waiting by spinning and yielding
--   BoundedQueue  queue/BoundedTypedConcurrentAsyncQueue.h, over MPMCQueue as a record
--   AsyncSink  sinks/AsyncSink.h: the sink that puts events into a queue of the poller. Carried is what the
--              copies and moves of an event keep, Setup the options
--
-- `none` is an access out of bounds, a call of std::terminate, or a loop that has not ended within
-- its fuel; theorems that say what an operation returns show that it is neither. size_t and
-- OffsetType wrap at 2^64 and 2^32; theorems ask for less than 2^62 bytes where the capacity is
-- doubled. The loop over the parents of a name of n bytes has the fuel n + 2, which is enough; the
-- search for a free archive has a fuel that its theorems ask to be more than the number that is
-- found; that of the two pattern parsers is the pattern's length and one more, which is enough for
-- every pattern; that of the loop of prepareLoggers, and of the expansion of environment variables,
-- is more than the name's length and one, and than the number of dollar signs, in their theorems.
--
-- The registry holds its mutex during each operation, so that operations are steps one after the
-- other. Not modelled: the algorithm of the bounded queue (a list of a capacity, as MPMCQueue documents
-- it); the text of a TOML file, which toml++ parses; system calls (the watcher for Windows,
-- opening files); the copies of date, MPMCQueue and rang.
pub mod Common
pub mod Buffer
pub mod Level
pub mod Sinks
pub mod Event
pub mod Logger
pub mod Registry
pub mod Rolling
pub mod AsyncSink
pub mod BoundedQueue
pub mod Config
pub mod Console
pub mod DateUtils
pub mod Env
pub mod FileSink
pub mod Format
pub mod LogFmt
pub mod Options
pub mod Pattern
pub mod Poller
pub mod SpinWait
pub mod Watcher
