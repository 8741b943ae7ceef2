-- ===== src/FileSink/Settings.antt =====
-- `activateOptions` of FormatSink (include/logpp/sinks/FormatSink.h), FileSink (src/FileSink.cpp) and
-- RollingFileSink (src/RollingFileSink.cpp): from options to a formatter and a file.
--
-- An action gives the exception that it raises, if it does, and the sink as it is then.
pub mod Archives
use logpp.Common.{
  ℕ, Bool, true, false, Option, none, some, List, [], ◌∷◌, ◌++◌, codes, if◌then◌else◌,
}
use logpp.Level.{iequals}
use logpp.Registry.{find}
use logpp.Options.{
  Text, Dict, OptionValue, string_value, array_value, dict_value, Options, as_string, try_get,
}
use logpp.Pattern.{ok, unknown_flag, out_of_bounds}
use logpp.Format.{PatternFormatter, new_pattern_formatter}
use logpp.LogFmt
use logpp.LogFmt.{LogFmtFormatter, matched, expected_value, new_log_fmt_formatter}
use logpp.Env.{expand_environment_variables}
use logpp.FileSink.Sizes.{ℤ, Duration, parse_size, parse_duration}

pub data AnyFormatter : Type 0 where
  pattern_formatter : PatternFormatter → AnyFormatter
  log_fmt_formatter : LogFmtFormatter → AnyFormatter

-- `ConfigurationError`; the exception of a formatter's constructor; an access out of bounds, or a loop that
-- has not ended.
pub data Raised : Type 0 where
  configuration_error : Text → Raised
  pattern_error : Raised
  undefined : Raised

pub data RollingStrategy : Type 0 where
  by_size : ℕ → RollingStrategy
  every_precise every_round : Duration → RollingStrategy

pub data ArchiveTime : Type 0 where
  utc_time local_time : ArchiveTime

-- An `ArchiveTimestamp` without a pattern is one with the empty pattern.
pub data ArchiveStrategy : Type 0 where
  incremental : ArchiveStrategy
  timestamp : ArchiveTime → Text → Option Duration → ArchiveStrategy

-- What a file is made with: its path, and the strategies of a rolling file.
pub record Opening : Type 0 where
  pub path : Text
  pub strategies : Option (RollingStrategy × ArchiveStrategy)

-- The formatter, if it has been set, and the last file that was made.
pub record Settings : Type 0 where
  pub formatter : Option AnyFormatter
  pub file : Option Opening

abbrev pub Action : Type 0
Action = Settings → Option Raised × Settings

abbrev pub raise : Text → Action
raise e s = (some (configuration_error e), s)

abbrev pub nothing_to_do : Action
nothing_to_do s = (none, s)

-- What is done next, unless an exception has been raised.
unfoldable pub and_next : Action → Action → Action
and_next a b s = let (raised, s') = a s in elim raised [ some e ↦ (some e, s') | none ↦ b s' ]

-- `setFormatter(make_shared<LogFmtFormatter>(pattern))`
unfoldable pub set_log_fmt_formatter : Text → Action
unfolding new_log_fmt_formatter
set_log_fmt_formatter pattern s = elim (new_log_fmt_formatter pattern) [
  | matched f ↦ (none, record s { formatter = some (log_fmt_formatter f) })
  | LogFmt.no_fuel ↦ (some undefined, s)
  | _ ↦ (some pattern_error, s)
]

unfoldable pub parse_pattern_or : Dict → Text → Text
unfolding find
parse_pattern_or opts default_value = elim (find (codes "pattern") opts) [
  | none ↦ default_value
  | some pattern ↦ pattern
]

module _ (registered : ℕ → Bool) where
  -- `setFormatter(make_shared<PatternFormatter>(pattern))`
  unfoldable pub set_pattern_formatter : Text → Action
  unfolding new_pattern_formatter
  set_pattern_formatter pattern s = elim (new_pattern_formatter registered pattern) [
    | ok f ↦ (none, record s { formatter = some (pattern_formatter f) })
    | unknown_flag c ↦ (some pattern_error, s)
    | _ ↦ (some undefined, s)
  ]

  unfoldable pub set_formatter : Text → Text → Text → Action
  unfolding set_pattern_formatter set_log_fmt_formatter iequals
  set_formatter type pattern error =
      if iequals type (codes "pattern")
      then set_pattern_formatter pattern
      else if iequals type (codes "logfmt")
      then set_log_fmt_formatter pattern
      else raise (error ++ type)

  -- The body of the loop of `FormatSink::activateOptions`, for the key `format`.
  unfoldable pub format_option : OptionValue → Action
  unfolding set_formatter parse_pattern_or find
  format_option (string_value s) = set_formatter s (codes "%+") (codes "format: unknown formatter ")
  format_option (dict_value opts) = elim (find (codes "type") opts) [
    | none ↦ raise (codes "format: missing `type`")
    | some type ↦
        set_formatter type (parse_pattern_or opts (codes "%+")) (codes "format: invalid `type` ")
  ]
  format_option (array_value a) = nothing_to_do

  unfoldable pub format_sink_options : Options → Action
  unfolding format_option and_next iequals
  format_sink_options [] = nothing_to_do
  format_sink_options ((key, value) ∷ rest) =
      let later = format_sink_options rest in
      and_next (if iequals key (codes "format") then format_option value else nothing_to_do) later

-- `strategy` and `archive`, with what is done with the strategies.
module _ (strtoll : Text → ℤ × Text) where
  -- The branches of `parseRolling`.
  unfoldable pub parse_rolling_size : Dict → (RollingStrategy → Action) → Action
  unfolding parse_size find
  parse_rolling_size opts on_parsed = elim (find (codes "size") opts) [
    | none ↦ raise (codes "strategy: missing `size` for size rolling strategy")
    | some text ↦ elim (parse_size strtoll text) [
      | none ↦ raise (codes "strategy: invalid size " ++ text)
      | some size ↦ on_parsed (by_size size)
    ]
  ]

  unfoldable pub parse_rolling_date : Dict → (RollingStrategy → Action) → Action
  unfolding parse_duration find iequals
  parse_rolling_date opts on_parsed = elim (find (codes "interval") opts) [
    | none ↦ raise (codes "strategy: missing `interval` for date rolling strategy")
    | some interval ↦ elim (find (codes "kind") opts) [
      | none ↦ raise (codes "strategy: missing `kind` for date rolling strategy")
      | some kind ↦ elim (parse_duration strtoll interval) [
        | none ↦ raise (codes "strategy: invalid `duration` " ++ interval)
        | some duration ↦
            if iequals kind (codes "precise")
            then on_parsed (every_precise duration)
            else if iequals kind (codes "round")
            then on_parsed (every_round duration)
            else raise (codes "strategy: invalid `kind` " ++ kind)
      ]
    ]
  ]

  unfoldable pub parse_rolling : OptionValue → (RollingStrategy → Action) → Action
  unfolding parse_rolling_size parse_rolling_date find iequals
  parse_rolling (dict_value opts) on_parsed = elim (find (codes "type") opts) [
    | none ↦ raise (codes "strategy: missing `type`")
    | some type ↦
        if iequals type (codes "size")
        then parse_rolling_size opts on_parsed
        else if iequals type (codes "date")
        then parse_rolling_date opts on_parsed
        else nothing_to_do
  ]
  parse_rolling (string_value s) on_parsed = raise (codes "strategy: invalid strategy options")
  parse_rolling (array_value a) on_parsed = raise (codes "strategy: invalid strategy options")

  unfoldable pub parse_timestamp_offset :
      ArchiveTime → Dict → Text → (ArchiveStrategy → Action) → Action
  unfolding parse_duration find
  parse_timestamp_offset time opts pattern on_parsed = elim (find (codes "offset") opts) [
    | none ↦ on_parsed (timestamp time pattern none)
    | some offset ↦ elim (parse_duration strtoll offset) [
      | none ↦ raise (codes "archive: invalid `offset` " ++ offset)
      | some duration ↦ on_parsed (timestamp time pattern (some duration))
    ]
  ]

  unfoldable pub parse_timestamp : Dict → (ArchiveStrategy → Action) → Action
  unfolding parse_timestamp_offset find iequals
  parse_timestamp opts on_parsed =
      let pattern : Text = elim (find (codes "pattern") opts) [
        | none ↦ codes "%Y%m%d"
        | some pattern ↦ pattern
      ] in
      elim (find (codes "tz") opts) [
        | none ↦ parse_timestamp_offset utc_time opts pattern on_parsed
        | some tz ↦
            if iequals tz (codes "utc")
            then parse_timestamp_offset utc_time opts pattern on_parsed
            else if iequals tz (codes "local")
            then parse_timestamp_offset local_time opts pattern on_parsed
            else raise (codes "archive: invalid `tz` " ++ tz)
      ]

  unfoldable pub parse_archive : OptionValue → (ArchiveStrategy → Action) → Action
  unfolding parse_timestamp and_next find iequals
  parse_archive (string_value s) on_parsed =
      and_next
        (if iequals s (codes "incremental")
          then on_parsed incremental
          else if iequals s (codes "timestamp")
          then on_parsed (timestamp utc_time [] none)
          else nothing_to_do)
        (raise (codes "archive: invalid type " ++ s))
  parse_archive (dict_value opts) on_parsed = elim (find (codes "type") opts) [
    | none ↦ raise (codes "archive: missing `type`")
    | some type ↦
        if iequals type (codes "incremental")
        then on_parsed incremental
        else if iequals type (codes "timestamp")
        then parse_timestamp opts on_parsed
        else nothing_to_do
  ]
  parse_archive (array_value a) on_parsed = raise (codes "archive: invalid archive options")

  unfoldable pub parse_rolling_and_archive :
      Options → (RollingStrategy → ArchiveStrategy → Action) → Action
  unfolding parse_rolling parse_archive try_get
  parse_rolling_and_archive options on_parsed = elim (try_get (codes "strategy") options) [
    | none ↦ raise (codes "missing `strategy` options")
    | some rolling_opts ↦ elim (try_get (codes "archive") options) [
      | none ↦ raise (codes "missing `archive` options")
      | some archive_opts ↦
          parse_rolling rolling_opts
            (λ strategy. parse_archive archive_opts (λ archive. on_parsed strategy archive))
    ]
  ]

-- The option `file`, and what is done with it.
unfoldable pub with_file : Options → (Text → Action) → Action
unfolding try_get as_string
with_file options then_do = elim (try_get (codes "file") options) [
  | none ↦ raise (codes "missing `file`")
  | some value ↦ elim (as_string value) [
    | none ↦ raise (codes "file: expected string")
    | some file ↦ then_do file
  ]
]

-- `fuel` is that of `expandEnvironmentVariables`.
module _ (getenv : Text → Option Text) (fuel : ℕ) where
  -- `m_file.reset(new FileImpl(...))`
  unfoldable pub make_file : Text → Option (RollingStrategy × ArchiveStrategy) → Action
  unfolding expand_environment_variables
  make_file file strategies s = elim (expand_environment_variables getenv fuel file) [
    | none ↦ (some undefined, s)
    | some path ↦ (none, record s { file = some (record { path = path; strategies = strategies }) })
  ]

  -- `FileSink::activateOptions`
  unfoldable pub file_sink_options : (ℕ → Bool) → Options → Action
  unfolding format_sink_options with_file make_file and_next
  file_sink_options registered options =
      and_next (format_sink_options registered options)
        (with_file options (λ file. make_file file none))

  -- `RollingFileSink::activateOptions`
  unfoldable pub rolling_file_sink_options : (ℕ → Bool) → (Text → ℤ × Text) → Options → Action
  unfolding format_sink_options with_file make_file parse_rolling_and_archive and_next
  rolling_file_sink_options registered strtoll options =
      and_next (format_sink_options registered options) (
        with_file options (λ file.
          parse_rolling_and_archive strtoll options
            (λ strategy archive. make_file file (some (strategy, archive)))))
