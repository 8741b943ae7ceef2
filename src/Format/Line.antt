-- ===== src/Format/Line.antt =====
-- The line that the default pattern prints.
use logpp.Common.{
  ℕ, ◌<◌, ◌≡◌, ◌∙◌, refl, Option-cases, inl, inr, Bool, Option, none, some, List, [], ◌∷◌, ◌++◌,
  append-nil, append_assoc, length, codes, if◌then◌else◌,
}
use logpp.Level.{LogLevel, level_string}
use logpp.Sinks.{passes}
use logpp.Event.{EventLogBuffer}
use logpp.Event.Text.{message}
use logpp.Logger.{Logger, send, log}
use logpp.Logger.Delivery.{Request, IsWritableRequest, ReadsAs, log-delivers}
use logpp.Pattern.{
  utc, Part, year, month, day, hours, minutes, seconds, FlagFormatter, zoned, ok, parse_pattern,
  parse_full, parse_loop, parse_percent, parse_flag, parse_label, label_of, and_then,
  parse_flag_parameter, until_bracket,
}
use logpp.Pattern.Grammar.{full_formatters}
use logpp.Format.{
  Platform, PatternFormatter, new_pattern_formatter, Hooks, format, invoke, format_flag, do_format,
  part_text, apply_zone, plain_text,
}
use logpp.Format.Fields.{AllCompact, fields_line, format_fields-line}

abbrev pub concat : List (List ℕ) → List ℕ
concat [] = []
concat (s ∷ ss) = s ++ concat ss

infixr 3 ◌&◌
abbrev pub ◌&◌ {ℓ κ} : {A : Type ℓ} {B : Type κ} → A → B → A × B
a & b = (a, b)

module _ (p : Platform) where
  -- "YYYY-MM-DD HH:MM:SS [level] (name) text - fields", in UTC.
  abbrev pub full_parts : ℕ → List ℕ → LogLevel → Request → List (List ℕ)
  full_parts now name level r =
      p.number 4 (p.calendar year now)
      ∷ codes "-"
      ∷ p.number 2 (p.calendar month now)
      ∷ codes "-"
      ∷ p.number 2 (p.calendar day now)
      ∷ codes " "
      ∷ p.number 2 (p.calendar hours now)
      ∷ codes ":"
      ∷ p.number 2 (p.calendar minutes now)
      ∷ codes ":"
      ∷ p.number 2 (p.calendar seconds now)
      ∷ codes " ["
      ∷ level_string level
      ∷ codes "] ("
      ∷ name
      ∷ codes ") "
      ∷ message p.format_to r.str r.args
      ∷ fields_line p (codes " - ") r.fields
      ∷ []

  abbrev pub full_line : ℕ → List ℕ → LogLevel → Request → List ℕ
  full_line now name level r = concat (full_parts now name level r)

  module _ (name : List ℕ) (level : LogLevel) (e : EventLogBuffer) where
    -- What each formatter appends.
    abbrev pub AllPrint : List FlagFormatter → List (List ℕ) → Type 0
    AllPrint [] [] = Unit
    AllPrint [] (s ∷ ss) = ⊥
    AllPrint (f ∷ fs) [] = ⊥
    AllPrint (f ∷ fs) (s ∷ ss) =
        ((out : List ℕ) → format_flag p f name level e out ≡ some (out ++ s)) × AllPrint fs ss

    pub do_format-concat :
        (fs : List FlagFormatter) (ss : List (List ℕ)) (out : List ℕ)
        → AllPrint fs ss
        → do_format p fs name level e out ≡ some (out ++ concat ss)
    unfolding do_format
    do_format-concat [] [] out h = rw (append-nil out) refl
    do_format-concat [] (s ∷ ss) out h = absurd h
    do_format-concat (f ∷ fs) [] out h = absurd h
    do_format-concat (f ∷ fs) (s ∷ ss) out (h, hs) =
        rw (h out, do_format-concat fs ss (out ++ s) hs, append_assoc out s (concat ss)) refl

    -- A date or a time in UTC, and a literal.
    pub format_flag-utc :
        (part : Part) (t : ℕ)
        → e.header.time_point ≡ t
        → (out : List ℕ)
        → format_flag p (zoned part utc) name level e out ≡ some (out ++ part_text p part t)
    unfolding format_flag apply_zone
    format_flag-utc part t h out = rw h refl

    pub format_flag-literal :
        (s out : List ℕ)
        → format_flag p (FlagFormatter.literal s) name level e out ≡ some (out ++ s)
    unfolding format_flag
    format_flag-literal s out = refl

    do_format-full :
        (now thread : ℕ) (r : Request) (out : List ℕ)
        → ReadsAs now thread r none e
        → length r.fields < 256
        → AllCompact p 0 r.fields
        → do_format p full_formatters name level e out ≡ some (out ++ full_line now name level r)
    unfolding part_text
    do_format-full now thread r out reads few compact =
        let time = λ (part : Part). format_flag-utc part now reads.time in
        do_format-concat full_formatters (full_parts now name level r) out (
          time year
          & format_flag-literal (codes "-")
          & time month
          & format_flag-literal (codes "-")
          & time day
          & format_flag-literal (codes " ")
          & time hours
          & format_flag-literal (codes ":")
          & time minutes
          & format_flag-literal (codes ":")
          & time seconds
          & format_flag-literal (codes " [")
          & (λ o. unfold format_flag plain_text in refl)
          & format_flag-literal (codes "] (")
          & (λ o. unfold format_flag plain_text in refl)
          & format_flag-literal (codes ") ")
          & (λ o. unfold format_flag plain_text in (rw (reads.text p.format_to) refl))
          & (λ o.
              unfold format_flag in
              (format_fields-line p (codes " - ") e r.fields o (reads.visited few) compact))
          & tt)

abbrev pub no_hooks : Hooks
no_hooks = record { pre_format = none; post_format = none }

pub no_hooks-format :
    (body : List ℕ → LogLevel → EventLogBuffer → List ℕ → Option (List ℕ)) (name : List ℕ)
    (level : LogLevel) (e : EventLogBuffer) (out : List ℕ)
    → format no_hooks body name level e out ≡ body name level e out
unfolding format invoke
no_hooks-format body name level e out = elim (Option-cases (body name level e out)) [
  | inl h ↦ rw h refl
  | inr (d, h) ↦ rw h refl
]

new_pattern_formatter-full :
    (registered : ℕ → Bool)
    → new_pattern_formatter registered (codes "%+")
      ≡ ok (record { pattern = codes "%+"; formatters = full_formatters; zone_id = utc })
unfolding new_pattern_formatter parse_pattern parse_full parse_loop parse_percent parse_flag
    parse_label label_of and_then parse_flag_parameter until_bracket
new_pattern_formatter-full registered = refl

-- Where memory can be had, a call of `log` writes one event, which goes on if the logger passes the level;
-- and a default pattern formatter prints for it: date and time of the call in UTC, the level, the logger's
-- name, the text with its arguments, and the fields with " - " before them if there is one. The request
-- fits 32-bit offsets and has less than 256 fields, whose scalars fmt prints without a space.
pub log-prints :
    (p : Platform) (registered : ℕ → Bool) (malloc : ℕ → Option (List ℕ))
    → ((n : ℕ) → (d : List ℕ) × (malloc n ≡ some d) × (length d ≡ n))
    → (now thread : ℕ) (logger : Logger) (level : LogLevel) (r : Request) (out : List ℕ)
    → IsWritableRequest r
    → length r.fields < 256
    → AllCompact p 0 r.fields
    → (e : EventLogBuffer) × (f : PatternFormatter) × (log malloc now thread logger r.str r.args
          level r.fields
        ≡ some (if passes logger.level level then send logger level e else []))
      × (new_pattern_formatter registered (codes "%+") ≡ ok f)
      × (format no_hooks (do_format p f.formatters) logger.name level e out
          ≡ some (out ++ full_line p now logger.name level r))
log-prints p registered malloc total now thread logger level r out w few compact =
    let (e, reads, written) = log-delivers malloc total now thread logger level r w in
    (
      e,
      record { pattern = codes "%+"; formatters = full_formatters; zone_id = utc },
      written,
      new_pattern_formatter-full registered,
      no_hooks-format (do_format p full_formatters) logger.name level e out
          ∙ do_format-full p logger.name level e now thread r out reads few compact,
    )
