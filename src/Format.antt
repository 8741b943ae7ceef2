-- ===== src/Format.antt =====
-- include/logpp/format/Formatter.h, the formatters of include/logpp/format/flag/, and
-- `PatternFormatter::doFormat`: what is printed for an event.
--
-- Time points are nanoseconds since 1970. `none` is an access out of bounds.
pub mod Pairs
pub mod Fields
pub mod Line
pub mod Fractions
pub mod Tests
use logpp.Common.{
  ℕ, ◌+◌, ◌*◌, ◌/◌, ◌%◌, Bool, true, false, ◌||◌, Option, none, some, List, [], ◌∷◌, ◌++◌,
  if◌then◌else◌, ltb, ◌==◌, ◌>>=◌, length, take,
}
use logpp.Level.{LogLevel, level_string}
use logpp.Event.{
  EventLogBuffer, Value, text, literal, scalar, Field, SourceLocation, format_text, visit_fields,
  location,
}
use logpp.Pattern.{
  Zone, utc, local, Part, year, month, day, hours, minutes, seconds, milliseconds, microseconds,
  Plain, thread_id, event_text, level_name, logger_name, source_file, source_line, FlagFormatter,
  zoned, plain, fields, custom, Parsed, ok, and_then, parse_pattern,
}

-- `OnFormat`, and `format` of a formatter or a flag: the name, the level, the event and the buffer.
abbrev pub OnFormat : Type 0
OnFormat = List ℕ → LogLevel → EventLogBuffer → List ℕ → Option (List ℕ)

-- What the libraries give: the string at the address of a literal, fmt's `{}` for the scalar of the field
-- with a number and `{:0w}` for a number and a width, fmt's formatter of texts, the date library's year,
-- month, day, hours, minutes and seconds of a time point, `timegm` of `localtime`, the file name of a
-- path, and the custom formatters with their parameters.
pub record Platform : Type 0 where
  pub text_at : ℕ → List ℕ
  pub display : ℕ → List ℕ → List ℕ
  pub number : ℕ → ℕ → List ℕ
  pub format_to : List ℕ → List Value → List ℕ
  pub calendar : Part → ℕ → ℕ
  pub local_seconds : ℕ → ℕ
  pub file_name : List ℕ → List ℕ
  pub custom_format : ℕ → List ℕ → OnFormat

abbrev pub ticks : ℕ
ticks = 1000000000

abbrev pub has_space : List ℕ → Bool
has_space [] = false
has_space (c ∷ s) = c == b' ' || has_space s

-- The string overload of `Writer::write`, and its template for the other types.
unfoldable pub write_string_pair : List ℕ → List ℕ → List ℕ
write_string_pair key value =
    if has_space value then key ++ (b'=' ∷ b'"' ∷ (value ++ (b'"' ∷ []))) else key ++ (b'=' ∷ value)

unfoldable pub write_value_pair : List ℕ → List ℕ → List ℕ
write_value_pair key value = key ++ (b'=' ∷ value)

-- `LevelFormatter` and `NameFormatter`
abbrev pub level_text : LogLevel → List ℕ
level_text level = level_string level

abbrev pub name_text : List ℕ → List ℕ
name_text name = name

module _ (p : Platform) where
  -- `tz::Utc::apply` and `tz::Local::apply`
  unfoldable pub apply_zone : Zone → ℕ → ℕ
  apply_zone utc t = t
  apply_zone local t = p.local_seconds (t / ticks) * ticks

  -- The formatters of the date, and of the time.
  abbrev pub year_text : ℕ → List ℕ
  year_text t = p.number 4 (p.calendar year t)

  abbrev pub month_text : ℕ → List ℕ
  month_text t = p.number 2 (p.calendar month t)

  abbrev pub day_text : ℕ → List ℕ
  day_text t = p.number 2 (p.calendar day t)

  abbrev pub hours_text : ℕ → List ℕ
  hours_text t = p.number 2 (p.calendar hours t)

  abbrev pub minutes_text : ℕ → List ℕ
  minutes_text t = p.number 2 (p.calendar minutes t)

  abbrev pub seconds_text : ℕ → List ℕ
  seconds_text t = p.number 2 (p.calendar seconds t)

  abbrev pub milliseconds_text : ℕ → List ℕ
  milliseconds_text t = p.number 3 (t % ticks / 1000000)

  abbrev pub microseconds_text : ℕ → List ℕ
  microseconds_text t = p.number 3 (t % ticks % 1000000 / 1000)

  unfoldable pub part_text : Part → ℕ → List ℕ
  part_text year t = year_text t
  part_text month t = month_text t
  part_text day t = day_text t
  part_text hours t = hours_text t
  part_text minutes t = minutes_text t
  part_text seconds t = seconds_text t
  part_text milliseconds t = milliseconds_text t
  part_text microseconds t = microseconds_text t

  -- `SourceFileFormatter` and `SourceLineFormatter`
  unfoldable pub file_text : Option SourceLocation → List ℕ
  file_text none = []
  file_text (some l) = p.file_name (take l.file.size (p.text_at l.file.data_at))

  unfoldable pub line_text : Option SourceLocation → List ℕ
  line_text none = []
  line_text (some l) = p.number 0 l.line

  -- `ThreadFormatter` and `TextFormatter`
  abbrev pub thread_text : EventLogBuffer → List ℕ
  thread_text e = p.number 0 e.header.thread_id

  abbrev pub message_text : EventLogBuffer → Option (List ℕ)
  message_text e = format_text p.format_to e

  unfoldable pub plain_text : Plain → List ℕ → LogLevel → EventLogBuffer → Option (List ℕ)
  unfolding file_text line_text
  plain_text thread_id name level e = some (thread_text e)
  plain_text event_text name level e = message_text e
  plain_text level_name name level e = some (level_text level)
  plain_text logger_name name level e = some (name_text name)
  plain_text source_file name level e =
      location (λ a. length (p.text_at a)) e >>= λ l. some (file_text l)
  plain_text source_line name level e =
      location (λ a. length (p.text_at a)) e >>= λ l. some (line_text l)

  -- The key and the value that `visit` gets; a scalar is of the type of the field with its number.
  unfoldable pub shown : ℕ → Value → List ℕ
  shown i (text s) = s
  shown i (literal a) = p.text_at a
  shown i (scalar bs) = p.display i bs

  unfoldable pub visit_field : ℕ → Field → List ℕ
  unfolding shown write_string_pair write_value_pair
  visit_field i f = elim f.value [
    | text s ↦ write_string_pair (shown i f.key) (shown i (text s))
    | literal a ↦ write_string_pair (shown i f.key) (shown i (literal a))
    | scalar bs ↦ write_value_pair (shown i f.key) (shown i (scalar bs))
  ]

  -- The visits, from the count of the writer on.
  unfoldable pub visit_from : ℕ → List Field → List ℕ → List ℕ
  unfolding visit_field
  visit_from m_count [] out = out
  visit_from m_count (f ∷ fs) out =
      let separated = if ltb 0 m_count then out ++ (b' ' ∷ []) else out in
      visit_from (m_count + 1) fs (separated ++ visit_field m_count f)

  -- `FieldsFormatter::format`
  unfoldable pub format_fields : List ℕ → EventLogBuffer → List ℕ → Option (List ℕ)
  unfolding visit_from
  format_fields prefix e out = visit_fields e >>= λ fs. elim fs [
    | [] ↦ some out
    | f ∷ rest ↦ some (visit_from 0 (f ∷ rest) (out ++ prefix))
  ]

  -- `FlagFormatter::format`
  unfoldable pub format_flag : FlagFormatter → OnFormat
  unfolding part_text apply_zone plain_text format_fields
  format_flag (FlagFormatter.literal s) name level e out = some (out ++ s)
  format_flag (zoned part zone) name level e out =
      some (out ++ part_text part (apply_zone zone e.header.time_point))
  format_flag (plain flag) name level e out = plain_text flag name level e >>= λ s. some (out ++ s)
  format_flag (fields prefix) name level e out = format_fields prefix e out
  format_flag (custom flag param) name level e out = p.custom_format flag param name level e out

  -- `PatternFormatter::doFormat`
  unfoldable pub do_format : List FlagFormatter → OnFormat
  unfolding format_flag
  do_format [] name level e out = some out
  do_format (f ∷ fs) name level e out =
      format_flag f name level e out >>= λ out'. do_format fs name level e out'

pub record PatternFormatter : Type 0 where
  pub pattern : List ℕ
  pub formatters : List FlagFormatter
  pub zone_id : Zone

-- The constructor, and `setPattern` where it does not throw.
unfoldable pub new_pattern_formatter : (ℕ → Bool) → List ℕ → Parsed PatternFormatter
unfolding and_then parse_pattern
new_pattern_formatter registered pattern =
    and_then (parse_pattern registered pattern)
      (λ r. ok (record { pattern = pattern; formatters = r.0; zone_id = r.1 }))

-- The functions that are called before and after `doFormat`, where they are set.
pub record Hooks : Type 0 where
  pub pre_format : Option OnFormat
  pub post_format : Option OnFormat

unfoldable pub invoke : Option OnFormat → OnFormat
invoke none name level e out = some out
invoke (some f) name level e out = f name level e out

-- `Formatter::format`
unfoldable pub format : Hooks → OnFormat → OnFormat
unfolding invoke
format hooks body name level e dest = invoke hooks.pre_format name level e dest >>= λ d.
    body name level e d >>= λ d'. invoke hooks.post_format name level e d'
