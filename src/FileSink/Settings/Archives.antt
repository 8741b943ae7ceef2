-- ===== src/FileSink/Settings/Archives.antt =====
-- Options that give no file.
use logpp.Common.{
  ℕ, ◌≡◌, refl, ◌∙◌, ap, sym, Bool, true, false, Option, none, some, [], ◌∷◌, ◌++◌, codes,
  if◌then◌else◌, Option-cases, inl, inr,
}
use logpp.Level.{iequals}
use logpp.Registry.{find}
use logpp.Options.{
  Text, Dict, OptionValue, string_value, array_value, dict_value, Options, as_string, try_get,
}
use logpp.Pattern
use logpp.Pattern.{Parsed, ok, unknown_flag, out_of_bounds}
use logpp.Format.{PatternFormatter, new_pattern_formatter}
use logpp.LogFmt
use logpp.LogFmt.{matched, Matched, expected_value, LogFmtFormatter, new_log_fmt_formatter}
use logpp.FileSink.Sizes.{ℤ, parse_size, parse_duration}
use logpp.FileSink.Settings.{
  Raised, configuration_error, pattern_error, undefined, pattern_formatter, log_fmt_formatter,
  Settings, Action, raise, nothing_to_do, and_next, RollingStrategy, ArchiveStrategy, by_size,
  every_precise, every_round, incremental, timestamp, utc_time, set_pattern_formatter,
  set_log_fmt_formatter, set_formatter, parse_pattern_or, format_option, format_sink_options,
  parse_rolling_size, parse_rolling_date, parse_rolling, parse_archive, parse_rolling_and_archive,
  with_file, make_file, rolling_file_sink_options,
}

-- An action that makes no file, unless it raises an exception.
abbrev KeepsFile : Settings → Option Raised × Settings → Type 0
KeepsFile s r = r.0 ≡ none → r.1.file ≡ s.file

abbrev Keeps : Action → Type 0
Keeps a = (s : Settings) → KeepsFile s (a s)

Keeps-if : (b : Bool) (x y : Action) → Keeps x → Keeps y → Keeps (if b then x else y)
Keeps-if true x y h g = h
Keeps-if false x y h g = g

Keeps-raise : (e : Text) → Keeps (raise e)
Keeps-raise e s h = absurd (cc)

and_next-none : (a b : Action) (s : Settings) → (a s).0 ≡ none → and_next a b s ≡ b (a s).1
unfolding and_next
and_next-none a b s e = rw (and_next, e) refl

and_next-some :
    (a b : Action) (s : Settings) (r : Raised)
    → (a s).0 ≡ some r
    → and_next a b s ≡ (some r, (a s).1)
unfolding and_next
and_next-some a b s r e = rw (and_next, e) refl

Keeps-and_next : (a b : Action) → Keeps a → Keeps b → Keeps (and_next a b)
Keeps-and_next a b h g s done = elim (Option-cases (a s).0) [
  | inl e ↦
      let next = and_next-none a b s e in
      ap (λ x. x.1.file) next ∙ g (a s).1 (sym (ap (λ x. x.0) next) ∙ done) ∙ h s e
  | inr (r, e) ↦
      let no : some r ≡ none = sym (ap (λ x. x.0) (and_next-some a b s r e)) ∙ done in absurd (cc)
]

Keeps-option {ℓ} :
    {A : Type ℓ} (o : Option A) (x : Action) (f : A → Action)
    → Keeps x
    → ((a : A) → Keeps (f a))
    → Keeps (elim o [ none ↦ x | some a ↦ f a ])
Keeps-option none x f h g = h
Keeps-option (some a) x f h g = g a

module _ (registered : ℕ → Bool) where
  set_pattern_formatter-Keeps : (pattern : Text) → Keeps (set_pattern_formatter registered pattern)
  unfolding set_pattern_formatter
  set_pattern_formatter-Keeps pattern s = step (new_pattern_formatter registered pattern)
    where
      step :
          (m : Parsed PatternFormatter)
          → KeepsFile s (elim m [
            | ok f ↦ (none, record s { formatter = some (pattern_formatter f) })
            | unknown_flag c ↦ (some pattern_error, s)
            | _ ↦ (some undefined, s)
          ])
      step (ok f) h = refl
      step (unknown_flag c) h = refl
      step out_of_bounds h = refl
      step Pattern.no_fuel h = refl

  set_log_fmt_formatter-Keeps : (pattern : Text) → Keeps (set_log_fmt_formatter pattern)
  unfolding set_log_fmt_formatter
  set_log_fmt_formatter-Keeps pattern s = step (new_log_fmt_formatter pattern)
    where
      step :
          (m : Matched LogFmtFormatter)
          → KeepsFile s (elim m [
            | matched f ↦ (none, record s { formatter = some (log_fmt_formatter f) })
            | LogFmt.no_fuel ↦ (some undefined, s)
            | _ ↦ (some pattern_error, s)
          ])
      step (matched f) h = refl
      step (expected_value i) h = refl
      step (LogFmt.unknown_flag c i) h = refl
      step LogFmt.no_fuel h = refl

  set_formatter-Keeps :
      (type pattern error : Text) → Keeps (set_formatter registered type pattern error)
  unfolding set_formatter
  set_formatter-Keeps type pattern error =
      Keeps-if (iequals type (codes "pattern")) _ _ (set_pattern_formatter-Keeps pattern) (
        Keeps-if (iequals type (codes "logfmt")) _ _ (set_log_fmt_formatter-Keeps pattern)
          (Keeps-raise (error ++ type)))

  format_option-Keeps : (value : OptionValue) → Keeps (format_option registered value)
  unfolding format_option
  format_option-Keeps (string_value s) =
      set_formatter-Keeps s (codes "%+") (codes "format: unknown formatter ")
  format_option-Keeps (array_value a) = λ s h. refl
  format_option-Keeps (dict_value opts) =
      Keeps-option (find (codes "type") opts) (raise (codes "format: missing `type`"))
        (λ type.
          set_formatter registered type (parse_pattern_or opts (codes "%+"))
            (codes "format: invalid `type` "))
        (Keeps-raise (codes "format: missing `type`"))
        (λ type.
          set_formatter-Keeps type (parse_pattern_or opts (codes "%+"))
            (codes "format: invalid `type` "))

  format_sink_options-Keeps : (options : Options) → Keeps (format_sink_options registered options)
  unfolding format_sink_options
  format_sink_options-Keeps [] = λ s h. refl
  format_sink_options-Keeps ((key, value) ∷ rest) =
      Keeps-and_next
        (if iequals key (codes "format") then format_option registered value else nothing_to_do)
        (format_sink_options registered rest)
        (Keeps-if (iequals key (codes "format")) (format_option registered value) nothing_to_do
          (format_option-Keeps value) (λ s h. refl))
        (format_sink_options-Keeps rest)

module _ (strtoll : Text → ℤ × Text) (on_parsed : RollingStrategy → Action)
    (kept : (x : RollingStrategy) → Keeps (on_parsed x)) where
  parse_rolling_size-Keeps : (opts : Dict) → Keeps (parse_rolling_size strtoll opts on_parsed)
  unfolding parse_rolling_size
  parse_rolling_size-Keeps opts =
      Keeps-option (find (codes "size") opts) _ _ (Keeps-raise _)
        (λ text. Keeps-option (parse_size strtoll text) _ _ (Keeps-raise _) (λ n. kept (by_size n)))

  parse_rolling_date-Keeps : (opts : Dict) → Keeps (parse_rolling_date strtoll opts on_parsed)
  unfolding parse_rolling_date
  parse_rolling_date-Keeps opts =
      Keeps-option (find (codes "interval") opts) _ _ (Keeps-raise _) (λ interval.
        Keeps-option (find (codes "kind") opts) _ _ (Keeps-raise _) (λ kind.
          Keeps-option (parse_duration strtoll interval) _ _ (Keeps-raise _) (λ d.
            Keeps-if (iequals kind (codes "precise")) _ _ (kept (every_precise d)) (
              Keeps-if (iequals kind (codes "round")) _ _ (kept (every_round d)) (Keeps-raise _)))))

  parse_rolling-Keeps : (value : OptionValue) → Keeps (parse_rolling strtoll value on_parsed)
  unfolding parse_rolling
  parse_rolling-Keeps (string_value s) = Keeps-raise _
  parse_rolling-Keeps (array_value a) = Keeps-raise _
  parse_rolling-Keeps (dict_value opts) =
      Keeps-option (find (codes "type") opts) _ _ (Keeps-raise _) (λ type.
        Keeps-if (iequals type (codes "size")) _ _ (parse_rolling_size-Keeps opts) (
          Keeps-if (iequals type (codes "date")) _ _ (parse_rolling_date-Keeps opts) (λ s h. refl)))

-- The exception that comes behind each archive of a text.
parse_archive-Keeps :
    (strtoll : Text → ℤ × Text) (text : Text) (on_parsed : ArchiveStrategy → Action)
    → Keeps (parse_archive strtoll (string_value text) on_parsed)
unfolding parse_archive
parse_archive-Keeps strtoll text on_parsed s done = elim (Option-cases (first s).0) [
  | inl e ↦
      let no : some (configuration_error (codes "archive: invalid type " ++ text)) ≡ none =
        sym (ap (λ x. x.0) (and_next-none first last s e)) ∙ done in
      absurd (cc)
  | inr (r, e) ↦
      let no : some r ≡ none = sym (ap (λ x. x.0) (and_next-some first last s r e)) ∙ done in
      absurd (cc)
]
  where
    first : Action
    first =
        if iequals text (codes "incremental")
        then on_parsed incremental
        else if iequals text (codes "timestamp")
        then on_parsed (timestamp utc_time [] none)
        else nothing_to_do

    last : Action
    last = raise (codes "archive: invalid type " ++ text)

parse_rolling_and_archive-Keeps :
    (strtoll : Text → ℤ × Text) (options : Options) (text : Text)
    (on_parsed : RollingStrategy → ArchiveStrategy → Action)
    → try_get (codes "archive") options ≡ some (string_value text)
    → Keeps (parse_rolling_and_archive strtoll options on_parsed)
unfolding parse_rolling_and_archive
parse_rolling_and_archive-Keeps strtoll options text on_parsed found =
    Keeps-option (try_get (codes "strategy") options) (raise (codes "missing `strategy` options")) _
      (Keeps-raise (codes "missing `strategy` options"))
      (λ rolling. rw found (
        parse_rolling-Keeps strtoll
          (λ strategy. parse_archive strtoll (string_value text) (on_parsed strategy))
          (λ strategy. parse_archive-Keeps strtoll text (on_parsed strategy)) rolling))

with_file-Keeps :
    (options : Options) (then_do : Text → Action)
    → ((file : Text) → Keeps (then_do file))
    → Keeps (with_file options then_do)
unfolding with_file
with_file-Keeps options then_do h =
    Keeps-option (try_get (codes "file") options) (raise (codes "missing `file`")) _
      (Keeps-raise (codes "missing `file`"))
      (λ value.
        Keeps-option (as_string value) (raise (codes "file: expected string")) then_do
          (Keeps-raise (codes "file: expected string")) h)

-- A rolling file sink whose option `archive` is a text, as "incremental", is given no file: its activation
-- raises an exception, or it ends with the file that the sink had before.
pub rolling_file_sink_options-text_archive :
    (getenv : Text → Option Text) (fuel : ℕ) (registered : ℕ → Bool) (strtoll : Text → ℤ × Text)
    (options : Options) (text : Text) (s : Settings)
    → try_get (codes "archive") options ≡ some (string_value text)
    → (rolling_file_sink_options getenv fuel registered strtoll options s).0 ≡ none
    → (rolling_file_sink_options getenv fuel registered strtoll options s).1.file ≡ s.file
unfolding rolling_file_sink_options
rolling_file_sink_options-text_archive getenv fuel registered strtoll options text s found =
    let with_strategies = λ (file : Text).
      parse_rolling_and_archive strtoll options
        (λ strategy archive. make_file getenv fuel file (some (strategy, archive))) in
    Keeps-and_next (format_sink_options registered options) (with_file options with_strategies)
      (format_sink_options-Keeps registered options)
      (with_file-Keeps options with_strategies (λ file.
        parse_rolling_and_archive-Keeps strtoll options text
          (λ strategy archive. make_file getenv fuel file (some (strategy, archive))) found))
      s
