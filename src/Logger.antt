-- ===== src/Logger.antt =====
-- include/logpp/core/Logger.h: a logger writes an event and hands it to its sink. The clock and the
-- thread's id are arguments; the atomic loads and stores of the level and the sink are reads and
-- updates of the state, since one call reads each of them once.
pub mod Delivery
mod Tests
use logpp.Common.{
  ℕ, Bool, true, false, not, Option, none, some, List, [], ◌∷◌, map, ◌>>=◌, if◌then◌else◌,
}
use logpp.Level.{LogLevel, trace, debug, info, warning, error}
use logpp.Sinks.{Sink, sink, passes}
use logpp.Event.{
  EventLogBuffer, Value, Field, SourceLocation, new_event, write_time, write_thread_id, write_text,
  write_source_location, write_fields,
}

pub record Logger : Type 0 where
  pub name : List ℕ
  pub level : LogLevel
  pub target : Sink

-- The arguments of `Sink::sink`.
pub record Entry : Type 0 where
  pub name : List ℕ
  pub level : LogLevel
  pub buffer : EventLogBuffer

unfoldable pub is_enabled : Logger → LogLevel → Bool
is_enabled logger lvl = passes logger.level lvl

unfoldable pub set_level : Logger → LogLevel → Logger
set_level logger level = record logger { level = level }

unfoldable pub set_sink : Logger → Sink → Logger
set_sink logger s = record logger { target = s }

-- `sink->sink(name(), level, buffer)`: what each terminal gets.
unfoldable pub send : Logger → LogLevel → EventLogBuffer → List (ℕ × Entry)
send logger level e =
    map (λ n. (n, record { name = logger.name; level = level; buffer = e }))
      (sink logger.target level)

module _ (malloc : ℕ → Option (List ℕ)) (now thread : ℕ) where
  -- `log(text, level, fields...)`
  unfoldable pub log :
      Logger → List ℕ → List Value → LogLevel → List Field → Option (List (ℕ × Entry))
  unfolding is_enabled send
  log logger str args level fields =
      if not (is_enabled logger level)
      then some []
      else (write_text malloc (write_thread_id (write_time new_event now) thread) str args >>= λ e.
          write_fields malloc e fields >>= λ e'. some (send logger level e'))

  -- `log(text, level, location, fields...)`
  unfoldable pub log_at :
      Logger
      → List ℕ
      → List Value
      → LogLevel
      → SourceLocation
      → List Field
      → Option (List (ℕ × Entry))
  unfolding is_enabled send
  log_at logger str args level location fields =
      if not (is_enabled logger level)
      then some []
      else (write_text malloc (write_thread_id (write_time new_event now) thread) str args >>= λ e.
          write_source_location malloc e location >>= λ e'.
          write_fields malloc e' fields >>= λ e''. some (send logger level e''))

  -- `trace`, `debug`, `info`, `warn`, `error`
  unfoldable pub log_trace : Logger → List ℕ → List Value → List Field → Option (List (ℕ × Entry))
  log_trace logger str args fields = log logger str args trace fields

  unfoldable pub log_debug : Logger → List ℕ → List Value → List Field → Option (List (ℕ × Entry))
  log_debug logger str args fields = log logger str args debug fields

  unfoldable pub log_info : Logger → List ℕ → List Value → List Field → Option (List (ℕ × Entry))
  log_info logger str args fields = log logger str args info fields

  unfoldable pub log_warn : Logger → List ℕ → List Value → List Field → Option (List (ℕ × Entry))
  log_warn logger str args fields = log logger str args warning fields

  unfoldable pub log_error : Logger → List ℕ → List Value → List Field → Option (List (ℕ × Entry))
  log_error logger str args fields = log logger str args error fields
