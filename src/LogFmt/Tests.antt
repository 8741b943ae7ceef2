-- ===== src/LogFmt/Tests.antt =====
-- The theorems on logfmt lines at a concrete event and at concrete patterns.
use logpp.Common.{ℕ, ◌≡◌, ◌≢◌, refl, some, List, [], ◌∷◌, true, codes, if◌then◌else◌, arith}
use logpp.Buffer.Bytes.{le_value}
use logpp.Level.{info, warning}
use logpp.Sinks.{passes}
use logpp.Event.{EventLogBuffer}
use logpp.Logger.{send, log}
use logpp.Rolling.Paths.{decimal}
use logpp.Format.{format, shown}
use logpp.Format.Pairs.{read_pairs, AllReadable, all_readable-AllReadable}
use logpp.Format.Line.{no_hooks}
use logpp.Format.Tests.{
  platform, zeroed, zeroed-total, server, request, request-IsWritable, request-AllCompact,
}
use logpp.LogFmt.{
  LogFmtFormatter, format_node, multi_flag_formatter, matched, unknown_flag, no_fuel, match_string,
  match_loop, match_entry, match_pair, match_until, match_flag, match_pattern,
  new_log_fmt_formatter,
}
use logpp.LogFmt.Line.{event_pairs, log-reads_back}
use logpp.LogFmt.Ends.{match_pattern-ends}
use logpp.Pattern.{utc, year, hours, minutes, event_text}
use logpp.Pattern.Grammar.{char_of, plain_char}
use logpp.LogFmt.Grammar.{
  text, part, go_local, flag, full, all_fields, pair, Layout, render_piece, render_value, blanks,
  render_entry, render, meaning,
}
use logpp.LogFmt.Parse.{match_pattern-render}

request-AllReadable : AllReadable (event_pairs platform 1000 (codes "net") warning request)
unfolding decimal le_value shown
request-AllReadable =
    all_readable-AllReadable (event_pairs platform 1000 (codes "net") warning request) refl

log-reads_back_example :
    (e : EventLogBuffer) × (f : LogFmtFormatter) × (line : List ℕ) × (log zeroed 1000 77 server
        request.str request.args warning request.fields
      ≡ some (if passes info warning then send server warning e else []))
    × (new_log_fmt_formatter (codes "%+") ≡ matched f)
    × (format no_hooks (format_node platform f.formatter) (codes "net") warning e [] ≡ some line)
    × (read_pairs line ≡ some (event_pairs platform 1000 (codes "net") warning request))
log-reads_back_example =
    log-reads_back platform zeroed zeroed-total 1000 77 server warning request request-IsWritable
      (omega arith) request-AllCompact request-AllReadable

match_pattern-ends_example : match_pattern (codes "a=%v b=%+ %f c") ≢ no_fuel
match_pattern-ends_example = match_pattern-ends (codes "a=%v b=%+ %f c")

abbrev sample : Layout
sample =
    (pair (codes "ts") (part hours ∷ text (codes ":") ∷ go_local ∷ part minutes ∷ []), 2)
    ∷ (pair (codes "peer id") [], 1)
    ∷ (pair (codes "msg") (text (codes "<") ∷ flag event_text ∷ []), 0)
    ∷ (all_fields, 0)
    ∷ (pair (codes "at") (part year ∷ full ∷ []), 0)
    ∷ []

render-sample : render sample ≡ codes "ts=%H:%L%M  peer id= msg=<%v%fat=%Y%+"
unfolding render render_entry render_value render_piece char_of plain_char blanks
render-sample = refl

match_pattern-render_example :
    match_pattern (render sample) ≡ matched (multi_flag_formatter (meaning true utc sample))
unfolding render_value
match_pattern-render_example = match_pattern-render sample (
  (refl, refl, (refl, (refl, tt))),
  (refl, (refl, tt), (refl, tt), tt),
  tt,
  (
    (refl, refl, (refl, (refl, (refl, (refl, (refl, (refl, (refl, tt)))))))),
    tt,
    tt,
    (
      (refl, refl, (refl, (refl, (refl, tt)))),
      (refl, (refl, tt), (refl, tt), tt),
      tt,
      ((refl, refl, (refl, (refl, tt))), tt, tt, tt),
    ),
  ),
)

-- A flag that is missing at the end of the pattern is reported as an unknown one.
match_pattern-missing_flag : match_pattern (codes "a=%") ≡ unknown_flag 0 3
unfolding match_pattern match_string match_loop match_entry match_pair match_until match_flag
match_pattern-missing_flag = refl
