-- ===== src/LogFmt/Line.antt =====
-- The line that the default logfmt pattern prints, and reading it back.
use logpp.Common.{
  ℕ, ◌<◌, ◌≡◌, ◌∙◌, refl, ap, Option, none, some, List, [], ◌∷◌, ◌++◌, map, append-nil,
  append_assoc, length, codes, if◌then◌else◌, Bool-cases, inl, inr,
}
use logpp.Level.{LogLevel, level_string}
use logpp.Sinks.{passes}
use logpp.Event.{EventLogBuffer}
use logpp.Event.Text.{message}
use logpp.Logger.{Logger, send, log}
use logpp.Logger.Delivery.{Request, IsWritableRequest, ReadsAs, log-delivers}
use logpp.Pattern.{
  Plain, utc, Part, year, month, day, hours, minutes, seconds, FlagFormatter, literal, zoned, plain,
  fields, level_name, logger_name, event_text,
}
use logpp.Format.{
  Platform, has_space, write_string_pair, format, format_flag, part_text, plain_text,
}
use logpp.Format.Pairs.{Pairs, pairs_tail, pairs_line, AllReadable, read_pairs, read_pairs-line}
use logpp.Format.Fields.{AllCompact, field_pairs, format_fields-tail}
use logpp.Format.Line.{
  concat, AllPrint, ◌&◌, format_flag-utc, format_flag-literal, no_hooks, no_hooks-format,
}
use logpp.LogFmt.{
  LogFmtFlag, flag_formatter, key_value_formatter, flag_formatter_proxy, multi_flag_formatter,
  LogFmtFlags, no_flags, then_flag, quote, format_node, format_nodes, matched, LogFmtFormatter,
  new_log_fmt_formatter,
}
use logpp.LogFmt.Default.{
  sequence_of, time_flags, keyed, time_node, from_fields, from_msg, from_logger, from_lvl,
  default_formatter, new_log_fmt_formatter-default,
}

quote-pair :
    (key str : List ℕ)
    → key ++ (b'=' ∷ (quote str ++ (str ++ quote str))) ≡ write_string_pair key str
unfolding write_string_pair
quote-pair key str = elim (Bool-cases (has_space str)) [
  | inl h ↦ rw h refl
  | inr h ↦ rw (h, append-nil str) refl
]

module _ (p : Platform) (name : List ℕ) (level : LogLevel) (e : EventLogBuffer) where
  format_nodes-sequence :
      (fs : List FlagFormatter) (ss : List (List ℕ)) (out : List ℕ)
      → AllPrint p name level e fs ss
      → format_nodes p (sequence_of (map flag_formatter fs)) name level e out
        ≡ some (out ++ concat ss)
  unfolding format_node
  format_nodes-sequence [] [] out h = rw (append-nil out) refl
  format_nodes-sequence [] (s ∷ ss) out h = absurd h
  format_nodes-sequence (f ∷ fs) [] out h = absurd h
  format_nodes-sequence (f ∷ fs) (s ∷ ss) out (h, hs) =
      rw
        (
          append-nil out,
          h out,
          format_nodes-sequence fs ss (out ++ s) hs,
          append_assoc out s (concat ss),
        )
        refl

  -- A key with flags, behind the text of the proxy.
  format_node-key :
      (prefix key : List ℕ) (fs : List FlagFormatter) (ss : List (List ℕ)) (out : List ℕ)
      → AllPrint p name level e fs ss
      → format_node p
          (flag_formatter_proxy prefix
            (key_value_formatter key (multi_flag_formatter (sequence_of (map flag_formatter fs)))))
          name
          level
          e
          out
        ≡ some ((out ++ prefix) ++ write_string_pair key (concat ss))
  unfolding format_node
  format_node-key prefix key fs ss out h =
      rw (format_nodes-sequence fs ss [] h, quote-pair key (concat ss)) refl

  -- A key with one flag, behind a blank.
  format_node-plain :
      (key s out : List ℕ) (f : Plain)
      → ((o : List ℕ) → format_flag p (plain f) name level e o ≡ some (o ++ s))
      → format_node p (keyed key f) name level e out
        ≡ some (out ++ (b' ' ∷ write_string_pair key s))
  format_node-plain key s out f h =
      format_node-key (codes " ") key (plain f ∷ []) (s ∷ []) out (h & tt)
      ∙ ap some (rw (append-nil s) (append_assoc out (codes " ") (write_string_pair key s)))

  -- What a formatter of a sequence appends, and then the others.
  format_nodes-then :
      (f : LogFmtFlag) (fs : LogFmtFlags) (s rest : List ℕ)
      → ((o : List ℕ) → format_node p f name level e o ≡ some (o ++ s))
      → ((o : List ℕ) → format_nodes p fs name level e o ≡ some (o ++ rest))
      → (out : List ℕ)
      → format_nodes p (then_flag f fs) name level e out ≡ some (out ++ (s ++ rest))
  unfolding format_node
  format_nodes-then f fs s rest h more out =
      rw (h out, more (out ++ s), append_assoc out s rest) refl

-- The pairs of a line: the time in UTC as "YYYY-MM-DDTHH:MM:SS", the level, the name, the text, the fields.
module _ (p : Platform) where
  abbrev pub time_parts : ℕ → List (List ℕ)
  time_parts now =
      p.number 4 (p.calendar year now)
      ∷ codes "-"
      ∷ p.number 2 (p.calendar month now)
      ∷ codes "-"
      ∷ p.number 2 (p.calendar day now)
      ∷ codes "T"
      ∷ p.number 2 (p.calendar hours now)
      ∷ codes ":"
      ∷ p.number 2 (p.calendar minutes now)
      ∷ codes ":"
      ∷ p.number 2 (p.calendar seconds now)
      ∷ []

  abbrev pub event_pairs : ℕ → List ℕ → LogLevel → Request → Pairs
  event_pairs now name level r =
      (codes "ts", concat (time_parts now))
      ∷ (codes "lvl", level_string level)
      ∷ (codes "logger", name)
      ∷ (codes "msg", message p.format_to r.str r.args)
      ∷ field_pairs p 0 r.fields

  abbrev time_formatters : List FlagFormatter
  time_formatters =
      zoned year utc
      ∷ literal (codes "-")
      ∷ zoned month utc
      ∷ literal (codes "-")
      ∷ zoned day utc
      ∷ literal (codes "T")
      ∷ zoned hours utc
      ∷ literal (codes ":")
      ∷ zoned minutes utc
      ∷ literal (codes ":")
      ∷ zoned seconds utc
      ∷ []

  abbrev event_line : ℕ → List ℕ → LogLevel → Request → List ℕ
  event_line now name level r =
      pairs_line (codes "ts", concat (time_parts now))
        ((codes "lvl", level_string level)
          ∷ (codes "logger", name)
          ∷ (codes "msg", message p.format_to r.str r.args)
          ∷ field_pairs p 0 r.fields)

  module _ (name : List ℕ) (level : LogLevel) (e : EventLogBuffer) (now thread : ℕ) (r : Request)
      (reads : ReadsAs now thread r none e) (few : length r.fields < 256)
      (compact : AllCompact p 0 r.fields) where
    format_node-ts :
        (out : List ℕ)
        → format_node p
            (flag_formatter_proxy []
              (key_value_formatter (codes "ts") (multi_flag_formatter time_flags)))
            name
            level
            e
            out
          ≡ some (out ++ write_string_pair (codes "ts") (concat (time_parts now)))
    unfolding part_text
    format_node-ts out =
        let time = λ (part : Part). format_flag-utc p name level e part now reads.time in
        let same = format_flag-literal p name level e in
        format_node-key p name level e [] (codes "ts") time_formatters (time_parts now) out (
          time year
          & same (codes "-")
          & time month
          & same (codes "-")
          & time day
          & same (codes "T")
          & time hours
          & same (codes ":")
          & time minutes
          & same (codes ":")
          & time seconds
          & tt)
        ∙ ap (λ o. some (o ++ write_string_pair (codes "ts") (concat (time_parts now))))
            (append-nil out)

    format_node-fields :
        (out : List ℕ)
        → format_nodes p (then_flag (flag_formatter (fields (codes " "))) no_flags) name level e out
          ≡ some (out ++ pairs_tail (field_pairs p 0 r.fields))
    unfolding format_node format_flag
    format_node-fields out =
        rw (format_fields-tail p e r.fields out (reads.visited few) compact) refl

    pub format_node-default :
        (out : List ℕ)
        → format_node p default_formatter name level e out
          ≡ some (out ++ event_line now name level r)
    unfolding format_node pairs_line pairs_tail plain_text
    format_node-default =
        let next = format_nodes-then p name level e in
        let one = format_node-plain p name level e in
        next time_node from_lvl _ _ format_node-ts (
          next (keyed (codes "lvl") level_name) from_logger _ _
            (λ o.
              one (codes "lvl") (level_string level) o level_name
                (λ o'. unfold format_flag plain_text in refl))
            (next (keyed (codes "logger") logger_name) from_msg _ _
              (λ o.
                one (codes "logger") name o logger_name
                  (λ o'. unfold format_flag plain_text in refl))
              (next (keyed (codes "msg") event_text) from_fields _ _
                (λ o.
                  one (codes "msg") (message p.format_to r.str r.args) o event_text
                    (λ o'. unfold format_flag plain_text in (rw (reads.text p.format_to) refl)))
                format_node-fields)))

-- Where memory can be had, a call of `log` writes one event, which goes on if the logger passes the level;
-- and a default logfmt formatter prints for it a line that reads as pairs: the time of the call in UTC,
-- the level, the logger's name, the text with its arguments, and the fields in order. The request fits
-- 32-bit offsets and has less than 256 fields, whose scalars fmt prints without a space; no value has a
-- quote in it, and no key a `=`.
pub log-reads_back :
    (p : Platform) (malloc : ℕ → Option (List ℕ))
    → ((n : ℕ) → (d : List ℕ) × (malloc n ≡ some d) × (length d ≡ n))
    → (now thread : ℕ) (logger : Logger) (level : LogLevel) (r : Request) → IsWritableRequest r
    → length r.fields < 256
    → AllCompact p 0 r.fields
    → AllReadable (event_pairs p now logger.name level r)
    → (e : EventLogBuffer) × (f : LogFmtFormatter) × (line : List ℕ) × (log malloc now thread logger
          r.str r.args level r.fields
        ≡ some (if passes logger.level level then send logger level e else []))
      × (new_log_fmt_formatter (codes "%+") ≡ matched f)
      × (format no_hooks (format_node p f.formatter) logger.name level e [] ≡ some line)
      × (read_pairs line ≡ some (event_pairs p now logger.name level r))
log-reads_back p malloc total now thread logger level r w few compact readable =
    let (e, reads, written) = log-delivers malloc total now thread logger level r w in
    (
      e,
      record { pattern = codes "%+"; formatter = default_formatter },
      event_line p now logger.name level r,
      written,
      new_log_fmt_formatter-default [],
      no_hooks-format (format_node p default_formatter) logger.name level e []
          ∙ format_node-default p logger.name level e now thread r reads few compact [],
      read_pairs-line (codes "ts", concat (time_parts p now)) _ readable,
    )
