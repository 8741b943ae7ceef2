-- ===== src/FileSink/Sizes.antt =====
-- `parseSize` and `parseDuration` of include/logpp/utils/string.h, over `std::strtoll` of the C library: the
-- value, and the text from `endptr` on.
use logpp.Common.{
  ℕ, ◌*◌, ◌%◌, ◌^◌, Bool, ◌||◌, ◌&&◌, Option, none, some, List, [], ◌∷◌, codes, if◌then◌else◌, ◌==◌,
  leb,
}
use logpp.Level.{iequals}

pub data ℤ : Type 0 where
  pos : ℕ → ℤ
  negsuc : ℕ → ℤ

-- A `long long` that is not negative has less than 64 bits as a size_t; products wrap.
abbrev pub scaled : ℕ → ℕ → ℕ
scaled n k = (n * k) % 2 ^ 64

abbrev size_suffix : ℕ → List ℕ → Option ℕ
size_suffix result suffix =
    if iequals suffix (codes "kb")
    then some (scaled result 1024)
    else if iequals suffix (codes "mb")
    then some (scaled (scaled result 1024) 1024)
    else if iequals suffix (codes "gb")
    then some (scaled (scaled (scaled result 1024) 1024) 1024)
    else none

pub data DurationUnit : Type 0 where
  second minute hour day month year : DurationUnit

pub record Duration : Type 0 where
  pub count : ℤ
  pub unit : DurationUnit

-- `std::isspace`
abbrev is_space : ℕ → Bool
is_space c = c == b' ' || (leb 9 c && leb c 13)

unfoldable pub skip_spaces : List ℕ → List ℕ
skip_spaces [] = []
skip_spaces (c ∷ s) = let rest = skip_spaces s in if is_space c then rest else c ∷ s

unfoldable pub unit_of : List ℕ → Option DurationUnit
unit_of [] = none
unit_of (c ∷ s) =
    if c == b's'
    then some second
    else if c == b'm'
    then some minute
    else if c == b'h'
    then some hour
    else if c == b'd'
    then some day
    else if c == b'M'
    then some month
    else if c == b'y'
    then some year
    else none

module _ (strtoll : List ℕ → ℤ × List ℕ) where
  unfoldable pub parse_size : List ℕ → Option ℕ
  unfolding iequals
  parse_size str =
      let (val, endptr) = strtoll str in
      elim val [
        | negsuc n ↦ none
        | pos n ↦ elim endptr [
          | [] ↦ some n
          | c ∷ suffix ↦ if c == 0 then some n else size_suffix n (c ∷ suffix)
        ]
      ]

  -- `parseDuration`: what `onParsed` is called with.
  unfoldable pub parse_duration : List ℕ → Option Duration
  unfolding skip_spaces unit_of
  parse_duration str =
      let (value, endptr) = strtoll str in
      elim (unit_of (skip_spaces endptr)) [
        | none ↦ none
        | some unit ↦ some (record { count = value; unit = unit })
      ]
