-- ===== src/LogFmt/Default.antt =====
-- The default pattern, and patterns that begin with `%+`.
use logpp.Common.{ℕ, ◌≡◌, refl, ap, List, [], ◌∷◌, ◌++◌, codes}
use logpp.Pattern.{
  Plain, utc, year, month, day, hours, minutes, seconds, literal, zoned, plain, fields, level_name,
  logger_name, event_text, label_of,
}
use logpp.LogFmt.{
  LogFmtFlag, flag_formatter, key_value_formatter, flag_formatter_proxy, multi_flag_formatter,
  LogFmtFlags, no_flags, then_flag, push_back, add_flag, add_fields, add_capture, matched,
  match_until, match_string, skip_blanks, match_switch, match_label, match_flag, match_pair,
  match_entry, match_loop, match_default, match_pattern, and_match, new_log_fmt_formatter,
}

-- Flags that print one behind the other, with nothing before them.
abbrev pub sequence_of : List LogFmtFlag → LogFmtFlags
sequence_of [] = no_flags
sequence_of (f ∷ fs) = then_flag (flag_formatter_proxy [] f) (sequence_of fs)

abbrev pub time_flags : LogFmtFlags
time_flags = sequence_of (
    flag_formatter (zoned year utc)
    ∷ flag_formatter (literal (codes "-"))
    ∷ flag_formatter (zoned month utc)
    ∷ flag_formatter (literal (codes "-"))
    ∷ flag_formatter (zoned day utc)
    ∷ flag_formatter (literal (codes "T"))
    ∷ flag_formatter (zoned hours utc)
    ∷ flag_formatter (literal (codes ":"))
    ∷ flag_formatter (zoned minutes utc)
    ∷ flag_formatter (literal (codes ":"))
    ∷ flag_formatter (zoned seconds utc)
    ∷ [])

-- A key with one flag, behind a blank.
abbrev pub keyed : List ℕ → Plain → LogFmtFlag
keyed key f =
    flag_formatter_proxy (codes " ")
      (key_value_formatter key (multi_flag_formatter (sequence_of (flag_formatter (plain f) ∷ []))))

abbrev pub time_node : LogFmtFlag
time_node =
    flag_formatter_proxy [] (key_value_formatter (codes "ts") (multi_flag_formatter time_flags))

abbrev pub from_fields : LogFmtFlags
from_fields = then_flag (flag_formatter (fields (codes " "))) no_flags

abbrev pub from_msg : LogFmtFlags
from_msg = then_flag (keyed (codes "msg") event_text) from_fields

abbrev pub from_logger : LogFmtFlags
from_logger = then_flag (keyed (codes "logger") logger_name) from_msg

abbrev pub from_lvl : LogFmtFlags
from_lvl = then_flag (keyed (codes "lvl") level_name) from_logger

abbrev pub default_formatter : LogFmtFlag
default_formatter = multi_flag_formatter (then_flag time_node from_lvl)

pub match_default-formatter : match_default ≡ matched default_formatter
unfolding match_default match_loop match_entry match_pair match_flag match_label match_switch
    label_of add_capture skip_blanks match_string match_until add_fields add_flag push_back
match_default-formatter = refl

match_pattern-default :
    (rest : List ℕ) → match_pattern (codes "%+" ++ rest) ≡ matched default_formatter
unfolding match_pattern match_string
match_pattern-default rest = match_default-formatter

-- A pattern that begins with "%+" gives the formatter of the default pattern, whatever stands behind it.
pub new_log_fmt_formatter-default :
    (rest : List ℕ)
    → new_log_fmt_formatter (codes "%+" ++ rest)
      ≡ matched (record { pattern = codes "%+" ++ rest; formatter = default_formatter })
unfolding new_log_fmt_formatter
new_log_fmt_formatter-default rest =
    ap (λ m. and_match m (λ f. matched (record { pattern = codes "%+" ++ rest; formatter = f })))
      (match_pattern-default rest)
