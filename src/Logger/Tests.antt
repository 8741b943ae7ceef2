-- ===== src/Logger/Tests.antt =====
-- A logger at concrete inputs.
use logpp.Common.{
  ℕ, List, [], ◌∷◌, Option, some, ◌≡◌, refl, codes, length, replicate, length-replicate, arith,
  if◌then◌else◌,
}
use logpp.Level.{info, warning}
use logpp.Sinks.{terminal, passes}
use logpp.Event.{EventLogBuffer, SourceLocation, text, scalar}
use logpp.Logger.{Logger, send, log_at}
use logpp.Logger.Delivery.{Request, IsWritableRequest, ReadsAs, log_at-delivers}

abbrev zeroed : ℕ → Option (List ℕ)
zeroed n = some (replicate n 0)

zeroed-total : (n : ℕ) → (d : List ℕ) × (zeroed n ≡ some d) × (length d ≡ n)
zeroed-total n = (replicate n 0, refl, length-replicate n 0)

abbrev server : Logger
server = record { name = codes "net"; level = info; target = terminal 1 }

-- "got {}" of one 4-byte argument, with the field peer="a b".
abbrev request : Request
request = record {
  str = codes "got {}";
  args = scalar (7 ∷ 0 ∷ 0 ∷ 0 ∷ []) ∷ [];
  fields = record { key = text (codes "peer"); value = text (codes "a b") } ∷ [];
}

request-IsWritable : IsWritableRequest request
request-IsWritable = record {
  short = omega arith;
  args_fit = (tt, tt);
  fields_fit = (omega arith, (omega arith, tt));
  size = omega arith;
}

abbrev here : SourceLocation
here = record { file = record { data_at = 4096; size = 8 }; line = 42 }

log_at-delivers_example :
    (e : EventLogBuffer) × ReadsAs 1000 77 request (some here) e
    × (log_at zeroed 1000 77 server request.str request.args warning here request.fields
        ≡ some (if passes info warning then send server warning e else []))
log_at-delivers_example =
    log_at-delivers zeroed zeroed-total 1000 77 server warning request here request-IsWritable
      (omega arith) (omega arith)
