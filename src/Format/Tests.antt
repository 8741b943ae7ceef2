-- ===== src/Format/Tests.antt =====
-- The theorems on lines at a concrete event.
use logpp.Common.{
  ℕ, ◌+◌, ◌-◌, ◌≡◌, refl, false, Option, some, List, [], ◌∷◌, ◌++◌, codes, length, replicate,
  length-replicate, if◌then◌else◌, arith,
}
use logpp.Buffer.Bytes.{le_value}
use logpp.Level.{info, warning}
use logpp.Sinks.{passes}
use logpp.Event.{EventLogBuffer, text, scalar, new_event, write_time}
use logpp.Logger.{Logger, send, log}
use logpp.Logger.Delivery.{Request, IsWritableRequest}
use logpp.Sinks.{terminal}
use logpp.Pattern.{Part, year, month, day, hours, minutes, seconds, ok}
use logpp.Rolling.Paths.{decimal}
use logpp.Format.{
  Platform, PatternFormatter, new_pattern_formatter, format, do_format, shown, write_string_pair,
}
use logpp.Format.Pairs.{pairs_line}
use logpp.Format.Fields.{AllCompact}
use logpp.Format.Line.{no_hooks, full_line, log-prints}

abbrev pub padded : ℕ → ℕ → List ℕ
padded w n = replicate (w - length (decimal n)) b'0' ++ decimal n

abbrev pub some_date : Part → ℕ → ℕ
some_date year t = 2024
some_date month t = 2
some_date day t = 29
some_date hours t = 1
some_date minutes t = 59
some_date seconds t = 7
some_date part t = 0

-- A platform where each text of a literal is "k" and scalars are printed as decimal numbers.
abbrev pub platform : Platform
platform = record {
  text_at = λ a. codes "k";
  display = λ i bs. decimal (le_value bs);
  number = padded;
  format_to = λ s vs. s;
  calendar = some_date;
  local_seconds = λ t. t + 3600;
  file_name = λ s. s;
  custom_format = λ c param name level e out. some out;
}

abbrev pub zeroed : ℕ → Option (List ℕ)
zeroed n = some (replicate n 0)

pub zeroed-total : (n : ℕ) → (d : List ℕ) × (zeroed n ≡ some d) × (length d ≡ n)
zeroed-total n = (replicate n 0, refl, length-replicate n 0)

abbrev pub server : Logger
server = record { name = codes "net"; level = info; target = terminal 1 }

abbrev pub request : Request
request = record {
  str = codes "hello you";
  args = [];
  fields =
      record { key = text (codes "peer"); value = text (codes "a b") }
      ∷ record { key = text (codes "n"); value = scalar (7 ∷ 0 ∷ 0 ∷ 0 ∷ []) }
      ∷ [];
}

pub request-IsWritable : IsWritableRequest request
request-IsWritable = record {
  short = omega arith;
  args_fit = tt;
  fields_fit = (omega arith, (omega arith, (omega arith, (tt, tt))));
  size = omega arith;
}

pub request-AllCompact : AllCompact platform 0 request.fields
unfolding decimal le_value
request-AllCompact = (tt, (refl, tt))

log-prints_example :
    (e : EventLogBuffer) × (f : PatternFormatter) × (log zeroed 1000 77 server request.str
        request.args warning request.fields
      ≡ some (if passes info warning then send server warning e else []))
    × (new_pattern_formatter (λ c. false) (codes "%+") ≡ ok f)
    × (format no_hooks (do_format platform f.formatters) (codes "net") warning e []
        ≡ some ([] ++ full_line platform 1000 (codes "net") warning request))
log-prints_example =
    log-prints platform (λ c. false) zeroed zeroed-total 1000 77 server warning request []
      request-IsWritable (omega arith) request-AllCompact

-- The line itself.
full_line-request :
    full_line platform 1000 (codes "net") warning request
    ≡ codes "2024-02-29 01:59:07 [warn] (net) hello you - peer=\"a b\" n=7"
unfolding decimal le_value pairs_line shown write_string_pair
full_line-request = refl

abbrev late : EventLogBuffer
late = write_time new_event 1234567891
