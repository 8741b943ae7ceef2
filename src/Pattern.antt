-- ===== src/Pattern.antt =====
-- src/PatternFormatter.cpp: from a pattern to the list of flag formatters.
--
-- An iterator is what is left of the pattern. The byte behind a std::string is 0; what stands behind
-- that one is out of bounds. A std::string that has been moved from is empty.
pub mod Grammar
pub mod Parse
pub mod Total
pub mod Unclosed
mod Tests
use logpp.Common.{
  ℕ, zero, suc, ◌+◌, Bool, true, false, Option, none, some, List, [], ◌∷◌, ◌++◌, length, codes,
  if◌then◌else◌, ◌==◌,
}

pub data Zone : Type 0 where
  utc : Zone
  local : Zone

-- The formatters of a date or time, which are made for a zone.
pub data Part : Type 0 where
  year month day hours minutes seconds milliseconds microseconds : Part

pub data Plain : Type 0 where
  thread_id event_text level_name logger_name source_file source_line : Plain

pub data FlagFormatter : Type 0 where
  literal : List ℕ → FlagFormatter
  zoned : Part → Zone → FlagFormatter
  plain : Plain → FlagFormatter
  fields : List ℕ → FlagFormatter
  custom : ℕ → List ℕ → FlagFormatter

-- The labels of the switch.
pub data Label : Type 0 where
  part_label : Part → Label
  local_label : Label
  plain_label : Plain → Label
  fields_label : Label
  default_label : Label

unfoldable pub label_of : ℕ → Label
label_of c =
    if c == b'Y'
    then part_label year
    else if c == b'm'
    then part_label month
    else if c == b'd'
    then part_label day
    else if c == b'H'
    then part_label hours
    else if c == b'M'
    then part_label minutes
    else if c == b'S'
    then part_label seconds
    else if c == b'i'
    then part_label milliseconds
    else if c == b'u'
    then part_label microseconds
    else if c == b'L'
    then local_label
    else if c == b't'
    then plain_label thread_id
    else if c == b'v'
    then plain_label event_text
    else if c == b'l'
    then plain_label level_name
    else if c == b'n'
    then plain_label logger_name
    else if c == b'p'
    then plain_label source_file
    else if c == b'o'
    then plain_label source_line
    else if c == b'f'
    then fields_label
    else default_label

-- A result, the exception "Unknown flag formatter", an access out of bounds; or the fuel is used up.
pub data Parsed {ℓ} (A : Type ℓ) : Type ℓ where
  ok : A → Parsed A
  unknown_flag : ℕ → Parsed A
  out_of_bounds : Parsed A
  no_fuel : Parsed A

unfoldable pub and_then {ℓ} : {A B : Type ℓ} → Parsed A → (A → Parsed B) → Parsed B
and_then (ok a) f = f a
and_then (unknown_flag c) f = unknown_flag c
and_then out_of_bounds f = out_of_bounds
and_then no_fuel f = no_fuel

-- The loop of `parseFlagParameter`, from behind the bracket: the parameter and the rest.
unfoldable pub until_bracket : List ℕ → List ℕ → Parsed (List ℕ × List ℕ)
until_bracket param [] = out_of_bounds
until_bracket param (c ∷ rest) =
    let more = until_bracket (param ++ (c ∷ [])) rest in
    if c == b']' then ok (param, rest) else more

unfoldable pub parse_flag_parameter : List ℕ → Parsed (List ℕ × List ℕ)
unfolding until_bracket
parse_flag_parameter [] = ok ([], [])
parse_flag_parameter (c ∷ rest) = if c == b'[' then until_bracket [] rest else ok ([], c ∷ rest)

-- `std::move(literalStr)`, if it is not empty.
abbrev pub flush : List ℕ → List FlagFormatter
flush [] = []
flush (c ∷ s) = literal (c ∷ s) ∷ []

-- The pattern of `%+`.
abbrev pub full_pattern : List ℕ
full_pattern = codes "%Y-%m-%d %H:%M:%S [%l] (%n) %v%f[ - ]"

-- The flags that `registerFlag` has added.
module _ (registered : ℕ → Bool) where
  -- `parseFlag`, at the flag `c`: the formatter, the zone and the rest.
  unfoldable pub parse_label :
      Label → Zone → ℕ → List ℕ → Parsed (List FlagFormatter × Zone × List ℕ)
  unfolding and_then parse_flag_parameter
  parse_label (part_label p) zone c rest = ok (zoned p zone ∷ [], zone, rest)
  parse_label local_label zone c rest = ok ([], local, rest)
  parse_label (plain_label p) zone c rest = ok (plain p ∷ [], zone, rest)
  parse_label fields_label zone c rest =
      and_then (parse_flag_parameter rest) (λ r. ok (fields r.0 ∷ [], zone, r.1))
  parse_label default_label zone c rest =
      if registered c
      then and_then (parse_flag_parameter rest) (λ r. ok (custom c r.0 ∷ [], zone, r.1))
      else unknown_flag c

  unfoldable pub parse_flag : Zone → ℕ → List ℕ → Parsed (List FlagFormatter × Zone × List ℕ)
  unfolding parse_label label_of
  parse_flag zone c rest = parse_label (label_of c) zone c rest

  -- The loop of `parsePattern`; `full` is what the recursive call for `%+` returns.
  module _ (full : Parsed (List FlagFormatter × Zone)) where
    -- Behind a `%`: the formatters, the zone and the rest.
    unfoldable pub parse_percent : Zone → List ℕ → Parsed (List FlagFormatter × Zone × List ℕ)
    unfolding parse_flag and_then
    parse_percent zone [] = ok ([], zone, [])
    parse_percent zone (c ∷ rest) =
        if c == b'+' then and_then full (λ r. ok (r.0, r.1, rest)) else parse_flag zone c rest

    unfoldable pub parse_loop : ℕ → Zone → List ℕ → List ℕ → Parsed (List FlagFormatter × Zone)
    unfolding parse_percent and_then
    parse_loop zero zone literal_str pattern = no_fuel
    parse_loop (suc fuel) zone literal_str [] = ok (flush literal_str, zone)
    parse_loop (suc fuel) zone literal_str (c ∷ rest) =
        let next = parse_loop fuel in
        if c == b'%'
        then and_then (parse_percent zone rest)
            (λ r. and_then (next r.1 [] r.2) (λ s. ok (flush literal_str ++ (r.0 ++ s.0), s.1)))
        else next zone (literal_str ++ (c ∷ [])) rest

  -- `parsePattern`, at both depths of the recursion; it starts in UTC.
  unfoldable pub parse_full : Parsed (List FlagFormatter × Zone)
  unfolding parse_loop
  parse_full = parse_loop no_fuel (suc (length full_pattern)) utc [] full_pattern

  unfoldable pub parse_pattern : List ℕ → Parsed (List FlagFormatter × Zone)
  unfolding parse_full
  parse_pattern pattern = parse_loop parse_full (suc (length pattern)) utc [] pattern
