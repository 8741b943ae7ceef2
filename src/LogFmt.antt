-- ===== src/LogFmt.antt =====
-- src/LogFmtFormatter.cpp: the parser of logfmt patterns, and what its formatters print.
--
-- A ParseContext is what is left of the pattern; the byte behind the pattern is the 0 of a std::string.
pub mod Ends
pub mod Default
pub mod Line
pub mod Grammar
pub mod Values
pub mod Entries
pub mod Parse
mod Tests
use logpp.Common.{
  ℕ, zero, suc, ◌+◌, ◌-◌, Bool, true, false, ◌&&◌, Option, none, some, List, [], ◌∷◌, ◌++◌, length,
  codes, if◌then◌else◌, ◌==◌, ◌>>=◌,
}
use logpp.Level.{LogLevel}
use logpp.Event.{EventLogBuffer}
use logpp.Pattern.{
  Zone, utc, local, FlagFormatter, literal, zoned, plain, fields, Label, part_label, local_label,
  plain_label, fields_label, default_label, label_of,
}
use logpp.Format.{Platform, OnFormat, format_flag, has_space}

-- The flag formatters, `LogFmtKeyValueFormatter`, `MultiFlagFormatter`, and `FlagFormatterProxy` with the
-- text of its first hook; the second is never set.
mutual
  pub data LogFmtFlag : Type 0 where
    flag_formatter : FlagFormatter → LogFmtFlag
    key_value_formatter : List ℕ → LogFmtFlag → LogFmtFlag
    flag_formatter_proxy : List ℕ → LogFmtFlag → LogFmtFlag
    multi_flag_formatter : LogFmtFlags → LogFmtFlag

  pub data LogFmtFlags : Type 0 where
    no_flags : LogFmtFlags
    then_flag : LogFmtFlag → LogFmtFlags → LogFmtFlags

unfoldable pub push_back : LogFmtFlags → LogFmtFlag → LogFmtFlags
push_back no_flags f = then_flag f no_flags
push_back (then_flag g gs) f = then_flag g (push_back gs f)

-- `MultiFlagFormatter::add`, with the separator of the formatter; fields come without a proxy.
unfoldable pub add_flag : List ℕ → LogFmtFlags → LogFmtFlag → LogFmtFlags
unfolding push_back
add_flag separator no_flags f = push_back no_flags (flag_formatter_proxy [] f)
add_flag separator (then_flag g gs) f =
    push_back (then_flag g gs) (flag_formatter_proxy separator f)

unfoldable pub add_fields : LogFmtFlags → List ℕ → LogFmtFlags
unfolding push_back
add_fields flags prefix = push_back flags (flag_formatter (fields prefix))

-- The quotes of a text that has a blank.
abbrev pub quote : List ℕ → List ℕ
quote str = if has_space str then b'"' ∷ [] else []

module _ (p : Platform) where
  unfoldable mutual
    unfolding format_flag

    pub format_node : LogFmtFlag → OnFormat
    format_node (flag_formatter f) name level e out = format_flag p f name level e out
    format_node (key_value_formatter key f) name level e out =
        format_node f name level e [] >>= λ str.
        some (out ++ (key ++ (b'=' ∷ (quote str ++ (str ++ quote str)))))
    format_node (flag_formatter_proxy prefix f) name level e out =
        format_node f name level e (out ++ prefix)
    format_node (multi_flag_formatter fs) name level e out = format_nodes fs name level e out

    pub format_nodes : LogFmtFlags → OnFormat
    format_nodes no_flags name level e out = some out
    format_nodes (then_flag f fs) name level e out =
        format_node f name level e out >>= λ out'. format_nodes fs name level e out'

-- A match, or the error that is thrown, with its column; or the fuel is used up.
pub data Matched {ℓ} (A : Type ℓ) : Type ℓ where
  matched : A → Matched A
  expected_value : ℕ → Matched A
  unknown_flag : ℕ → ℕ → Matched A
  no_fuel : Matched A

abbrev pub and_match {ℓ κ} : {A : Type ℓ} {B : Type κ} → Matched A → (A → Matched B) → Matched B
and_match (matched a) f = f a
and_match (expected_value i) f = expected_value i
and_match (unknown_flag c i) f = unknown_flag c i
and_match no_fuel f = no_fuel

-- `matchUntil`: what stands before `c`, and the rest from there on.
unfoldable pub match_until : ℕ → List ℕ → List ℕ × List ℕ
match_until c [] = ([], [])
match_until c (d ∷ rest) =
    let r = match_until c rest in if d == c then ([], d ∷ rest) else (d ∷ r.0, r.1)

-- `matchString`: the rest behind the string.
unfoldable pub match_string : List ℕ → List ℕ → Option (List ℕ)
match_string [] data_left = some data_left
match_string (c ∷ str) [] = none
match_string (c ∷ str) (d ∷ data_left) = if c == d then match_string str data_left else none

-- The loop over the blanks.
unfoldable pub skip_blanks : List ℕ → List ℕ
skip_blanks [] = []
skip_blanks (c ∷ rest) = let skipped = skip_blanks rest in if c == b' ' then skipped else c ∷ rest

-- A literal from the capture, if it is not empty.
unfoldable pub add_capture : LogFmtFlags → List ℕ → LogFmtFlags
unfolding add_flag
add_capture flags [] = flags
add_capture flags (c ∷ capture) = add_flag [] flags (flag_formatter (literal (c ∷ capture)))

-- `next`
abbrev pub next : List ℕ → ℕ
next [] = 0
next (c ∷ rest) = c

abbrev pub default_pattern : List ℕ
default_pattern = codes "ts=%Y-%m-%dT%H:%M:%S lvl=%l logger=%n msg=%v%f"

-- What the recursive calls for `%+` return, and the length of the pattern.
module _ (full : Matched LogFmtFlag) (size : ℕ) where
  -- The switch, at the flag `c` with `rest` behind it.
  unfoldable pub match_switch :
      Label → Zone → LogFmtFlags → ℕ → List ℕ → Matched (LogFmtFlags × Zone)
  unfolding add_flag
  match_switch (part_label p) zone flags c rest =
      matched (add_flag [] flags (flag_formatter (zoned p zone)), zone)
  match_switch local_label zone flags c rest = matched (flags, local)
  match_switch (plain_label p) zone flags c rest =
      matched (add_flag [] flags (flag_formatter (plain p)), zone)
  match_switch fields_label zone flags c rest = unknown_flag c (size - suc (length rest))
  match_switch default_label zone flags c rest =
      if c == b'+'
      then and_match full (λ f. matched (add_flag [] flags f, zone))
      else unknown_flag c (size - suc (length rest))

  unfoldable pub match_label : Zone → LogFmtFlags → ℕ → List ℕ → Matched (LogFmtFlags × Zone)
  unfolding match_switch label_of
  match_label zone flags c rest = match_switch (label_of c) zone flags c rest

  -- The loop of `matchFlag`: the formatter, the zone and the rest.
  unfoldable pub match_flag :
      Zone → LogFmtFlags → List ℕ → List ℕ → Matched (LogFmtFlag × Zone × List ℕ)
  unfolding add_capture match_label
  match_flag zone flags capture [] =
      matched (multi_flag_formatter (add_capture flags capture), zone, [])
  match_flag zone flags capture (c ∷ []) =
      if c == b' '
      then matched (multi_flag_formatter (add_capture flags capture), zone, c ∷ [])
      else if c == b'%'
      then unknown_flag 0 size
      else matched (multi_flag_formatter (add_capture flags (capture ++ (c ∷ []))), zone, [])
  match_flag zone flags capture (c ∷ d ∷ rest) =
      let behind_flag = λ (r : LogFmtFlags × Zone). match_flag r.1 r.0 [] rest in
      let later = match_flag zone flags (capture ++ (c ∷ [])) (d ∷ rest) in
      if c == b' '
      then matched (multi_flag_formatter (add_capture flags capture), zone, c ∷ d ∷ rest)
      else if c == b'%'
      then (if d == b'f'
          then matched (multi_flag_formatter (add_capture flags capture), zone, c ∷ d ∷ rest)
          else and_match (match_label zone (add_capture flags capture) d rest) behind_flag)
      else later

  -- A key and its value, up to a blank or the fields.
  unfoldable pub match_pair : Zone → LogFmtFlags → List ℕ → Matched (LogFmtFlags × Zone × List ℕ)
  unfolding match_until match_flag add_flag
  match_pair zone flags data_left =
      let (key, found) = match_until b'=' data_left in
      elim found [
        | [] ↦ expected_value size
        | equals ∷ [] ↦ expected_value size
        | equals ∷ c ∷ rest ↦
            and_match (match_flag zone no_flags [] (c ∷ rest))
              (λ r. matched (add_flag (codes " ") flags (key_value_formatter key r.0), r.1, r.2))
      ]

  -- The body of the loop of `matchPattern`.
  unfoldable pub match_entry : Zone → LogFmtFlags → List ℕ → Matched (LogFmtFlags × Zone × List ℕ)
  unfolding match_string match_pair add_fields skip_blanks
  match_entry zone flags data_left = elim (match_string (codes "%f") data_left) [
    | some rest ↦ matched (add_fields flags (codes " "), zone, skip_blanks rest)
    | none ↦ and_match (match_pair zone flags data_left) (λ r. matched (r.0, r.1, skip_blanks r.2))
  ]

  unfoldable pub match_loop : ℕ → Zone → LogFmtFlags → List ℕ → Matched LogFmtFlag
  unfolding match_entry
  match_loop zero zone flags data_left = no_fuel
  match_loop (suc fuel) zone flags [] = matched (multi_flag_formatter flags)
  match_loop (suc fuel) zone flags (c ∷ rest) =
      let later = match_loop fuel in
      and_match (match_entry zone flags (c ∷ rest)) (λ r. later r.1 r.0 r.2)

-- `matchPattern`, at both depths of the recursion.
unfoldable pub match_default : Matched LogFmtFlag
unfolding match_loop
match_default =
    match_loop no_fuel (length default_pattern) (suc (length default_pattern)) utc no_flags
      default_pattern

unfoldable pub match_pattern : List ℕ → Matched LogFmtFlag
unfolding match_string match_default match_loop
match_pattern pattern = elim (match_string (codes "%+") pattern) [
  | some rest ↦ match_default
  | none ↦ match_loop match_default (length pattern) (suc (length pattern)) utc no_flags pattern
]

-- `LogFmtFormatter`, its constructor, and `setPattern` where it does not throw.
pub record LogFmtFormatter : Type 0 where
  pub pattern : List ℕ
  pub formatter : LogFmtFlag

unfoldable pub new_log_fmt_formatter : List ℕ → Matched LogFmtFormatter
unfolding match_pattern
new_log_fmt_formatter pattern =
    and_match (match_pattern pattern) (λ f. matched (record { pattern = pattern; formatter = f }))
