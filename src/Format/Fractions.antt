-- ===== src/Format/Fractions.antt =====
-- Milliseconds and microseconds in local time.
use logpp.Common.{ℕ, ◌*◌, ◌/◌, ◌%◌, ◌≡◌, refl, ap, Bool, some, List, [], ◌∷◌, ◌++◌, codes, arith}
use logpp.Level.{LogLevel}
use logpp.Event.{EventLogBuffer}
use logpp.Pattern.{
  local, milliseconds, microseconds, FlagFormatter, zoned, ok, parse_pattern, parse_full,
  parse_loop, parse_percent, parse_flag, parse_label, label_of, and_then, parse_flag_parameter,
  until_bracket,
}
use logpp.Format.{
  Platform, PatternFormatter, new_pattern_formatter, format_flag, do_format, part_text, apply_zone,
  ticks,
}
use logpp.Format.Line.{do_format-concat, format_flag-literal}

abbrev fraction_formatters : List FlagFormatter
fraction_formatters =
    zoned milliseconds local ∷ FlagFormatter.literal (codes ".") ∷ zoned microseconds local ∷ []

module _ (p : Platform) (name : List ℕ) (level : LogLevel) (e : EventLogBuffer) where
  format_flag-milliseconds :
      (out : List ℕ)
      → format_flag p (zoned milliseconds local) name level e out ≡ some (out ++ p.number 3 0)
  unfolding format_flag part_text apply_zone
  format_flag-milliseconds out =
      let zeroed : p.local_seconds (e.header.time_point / ticks) * ticks % ticks / 1000000 ≡ 0 =
        omega arith in
      ap (λ k. some (out ++ p.number 3 k)) zeroed

  format_flag-microseconds :
      (out : List ℕ)
      → format_flag p (zoned microseconds local) name level e out ≡ some (out ++ p.number 3 0)
  unfolding format_flag part_text apply_zone
  format_flag-microseconds out =
      let zeroed : p.local_seconds (e.header.time_point / ticks) * ticks % ticks % 1000000 / 1000
          ≡ 0 =
        omega arith in
      ap (λ k. some (out ++ p.number 3 k)) zeroed

  -- In local time, milliseconds and microseconds are printed as 0, whatever the time of the event.
  pub do_format-fractions :
      (registered : ℕ → Bool) (out : List ℕ)
      → (f : PatternFormatter) × (new_pattern_formatter registered (codes "%L%i.%u") ≡ ok f)
        × (do_format p f.formatters name level e out
            ≡ some (out ++ (p.number 3 0 ++ (codes "." ++ (p.number 3 0 ++ [])))))
  unfolding new_pattern_formatter parse_pattern parse_full parse_loop parse_percent parse_flag
      parse_label label_of and_then parse_flag_parameter until_bracket
  do_format-fractions registered out = (
    record { pattern = codes "%L%i.%u"; formatters = fraction_formatters; zone_id = local },
    refl,
    do_format-concat p name level e fraction_formatters
        (p.number 3 0 ∷ codes "." ∷ p.number 3 0 ∷ []) out
        (
          format_flag-milliseconds,
          (format_flag-literal p name level e (codes "."), (format_flag-microseconds, tt)),
        ),
  )
