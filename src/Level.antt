-- ===== src/Level.antt =====
-- include/logpp/core/LogLevel.h, and `iequals` of include/logpp/utils/string.h.
pub mod Names
mod Tests
use logpp.Common.{
  ℕ, ◌+◌, Bool, true, false, ◌&&◌, Option, none, some, List, [], ◌∷◌, leb, ◌==◌, if◌then◌else◌,
  codes,
}

pub data LogLevel : Type 0 where
  trace debug info warning error off : LogLevel

-- `static_cast<int>(level)`
abbrev pub level_index : LogLevel → ℕ
level_index trace = 0
level_index debug = 1
level_index info = 2
level_index warning = 3
level_index error = 4
level_index off = 5

abbrev pub level_string : LogLevel → List ℕ
level_string off = codes "off"
level_string trace = codes "trace"
level_string debug = codes "debug"
level_string info = codes "info"
level_string warning = codes "warn"
level_string error = codes "error"

-- `std::tolower` in the "C" locale
abbrev pub to_lower : ℕ → ℕ
to_lower c = if leb b'A' c && leb c b'Z' then c + 32 else c

unfoldable pub iequals : List ℕ → List ℕ → Bool
iequals [] [] = true
iequals [] (d ∷ rhs) = false
iequals (c ∷ lhs) [] = false
iequals (c ∷ lhs) (d ∷ rhs) = to_lower c == to_lower d && iequals lhs rhs

unfoldable pub parse_level : List ℕ → Option LogLevel
parse_level level =
    if iequals level (codes "off")
    then some off
    else if iequals level (codes "trace")
    then some trace
    else if iequals level (codes "debug")
    then some debug
    else if iequals level (codes "info")
    then some info
    else if iequals level (codes "warn")
    then some warning
    else if iequals level (codes "error")
    then some error
    else none
