-- ===== src/Sinks.antt =====
-- include/logpp/sinks/LevelSink.h and MultiSink.h, over the interface of include/logpp/sinks/Sink.h:
-- how an event goes down a tree of sinks. A sink that writes (a console, a file, a queue) is a
-- terminal with a number, and the registry's `NoopSink` writes nothing; a call answers with the terminals that it reaches, in order.
pub mod Routes
mod Tests
use logpp.Common.{ℕ, ◌+◌, Bool, true, false, not, List, [], ◌∷◌, ◌++◌, leb, if◌then◌else◌, max}
use logpp.Level.{LogLevel, level_index}

mutual
  pub data Sink : Type 0 where
    terminal : ℕ → Sink
    noop : Sink
    level_sink : Sink → LogLevel → Sink
    multi_sink : Sinks → Sink

  pub data Sinks : Type 0 where
    nil : Sinks
    cons : Sink → Sinks → Sinks

-- `static_cast<int>(level) >= static_cast<int>(m_level)`, of `LevelSink::is` and `Logger::is`.
abbrev pub passes : LogLevel → LogLevel → Bool
passes own level = leb (level_index own) (level_index level)

unfoldable mutual
  -- `sink(name, level, buffer)`
  pub sink : Sink → LogLevel → List ℕ
  sink (terminal n) level = n ∷ []
  sink noop level = []
  sink (level_sink inner own) level =
      let inner_call = sink inner level in if not (passes own level) then [] else inner_call
  sink (multi_sink inner) level = sink_all inner level

  pub sink_all : Sinks → LogLevel → List ℕ
  sink_all nil level = []
  sink_all (cons s rest) level = sink s level ++ sink_all rest level

-- `activateOptions`: the terminals whose options are read. A `MultiSink` does not pass them on.
unfoldable pub activate_options : Sink → List ℕ
activate_options (terminal n) = n ∷ []
activate_options noop = []
activate_options (level_sink inner own) = activate_options inner
activate_options (multi_sink inner) = []

-- `addSink`
pub add_sink : Sinks → Sink → Sinks
add_sink nil s = cons s nil
add_sink (cons t rest) s = cons t (add_sink rest s)
