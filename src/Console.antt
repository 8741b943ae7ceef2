-- ===== src/Console.antt =====
-- include/logpp/sinks/Console.h and include/logpp/sinks/ColoredConsole.h: sinks that write to a stream.
--
-- The stream is the list of what it has been given: bytes, and the manipulators of the third-party
-- library rang. A read or write outside the array of a theme is `none` or `undefined`.
pub mod Themes
pub mod Painted
mod Tests
use logpp.Common.{
  ℕ, zero, suc, Bool, Option, none, some, List, [], ◌∷◌, ◌++◌, get_elem?, replicate, codes,
  if◌then◌else◌, ◌>>=◌,
}
use logpp.Level.{LogLevel, trace, debug, info, warning, error, iequals, level_index, parse_level}
use logpp.Logger.{Entry}
use logpp.Format.{OnFormat}
use logpp.Options.{Text, Dict, OptionValue, Options, as_dict, try_get}
use logpp.FileSink.Settings.{Raised, configuration_error, undefined, Settings, format_sink_options}

-- The colours of `COLORS`.
pub data Color : Type 0 where
  black red green yellow blue magenta cyan gray : Color

-- What a stream is given: text, `rang::fg` of a colour, and `rang::fg::reset`.
pub data Chunk : Type 0 where
  bytes : Text → Chunk
  fg : Color → Chunk
  reset : Chunk

-- `std::array<Color, 5>`, with the `fg` of each.
abbrev pub Theme : Type 0
Theme = List (Option Color)

abbrev pub new_theme : Theme
new_theme = replicate 5 none

unfoldable pub set_at {ℓ} : {A : Type ℓ} → ℕ → A → List A → Option (List A)
set_at i a [] = none
set_at zero a (x ∷ xs) = some (a ∷ xs)
set_at (suc i) a (x ∷ xs) = set_at i a xs >>= λ ys. some (x ∷ ys)

unfoldable pub set_fg_color : LogLevel → Color → Theme → Option Theme
unfolding set_at
set_fg_color level color theme = set_at (level_index level) (some color) theme

unfoldable pub get_fg_color : Theme → LogLevel → Option (Option Color)
get_fg_color theme level = get_elem? theme (level_index level)

unfoldable pub parse_color : Text → Option Color
unfolding iequals
parse_color color_string =
    if iequals color_string (codes "black")
    then some black
    else if iequals color_string (codes "red")
    then some red
    else if iequals color_string (codes "green")
    then some green
    else if iequals color_string (codes "yellow")
    then some yellow
    else if iequals color_string (codes "blue")
    then some blue
    else if iequals color_string (codes "magenta")
    then some magenta
    else if iequals color_string (codes "cyan")
    then some cyan
    else if iequals color_string (codes "gray")
    then some gray
    else none

-- A theme, or what has been raised.
pub data ParsedTheme : Type 0 where
  parsed : Theme → ParsedTheme
  raised : Raised → ParsedTheme

-- The body of the loop of `parseConfig`.
unfoldable pub parse_theme_entry : Theme → Text → Text → ParsedTheme
unfolding parse_color set_fg_color
parse_theme_entry theme level_str color_str = elim (parse_level level_str) [
  | none ↦ raised (configuration_error (codes "theme: invalid `level` " ++ level_str))
  | some level ↦ elim (parse_color color_str) [
    | none ↦ raised (configuration_error (codes "theme: invalid `color` " ++ color_str))
    | some color ↦ elim (set_fg_color level color theme) [
      | none ↦ raised undefined
      | some theme' ↦ parsed theme'
    ]
  ]
]

abbrev pub and_parsed : ParsedTheme → (Theme → ParsedTheme) → ParsedTheme
and_parsed (parsed theme) f = f theme
and_parsed (raised e) f = raised e

unfoldable pub parse_entries : Dict → Theme → ParsedTheme
unfolding parse_theme_entry
parse_entries [] theme = parsed theme
parse_entries ((level_str, color_str) ∷ rest) theme =
    and_parsed (parse_theme_entry theme level_str color_str) (parse_entries rest)

unfoldable pub parse_config : Dict → ParsedTheme
unfolding parse_entries
parse_config theme_options = parse_entries theme_options new_theme

-- `DefaultTheme`
abbrev pub default_theme : Option Theme
unfolding set_fg_color
default_theme = set_fg_color trace gray new_theme >>= λ t. set_fg_color debug green t >>= λ t.
    set_fg_color info cyan t >>= λ t.
    set_fg_color warning yellow t >>= λ t. set_fg_color error red t

-- `ColoredConsole::activateOptions`: what has been raised, and the sink as it is then.
unfoldable pub theme_option : OptionValue → Theme → Option Raised × Theme
unfolding as_dict parse_config
theme_option value theme = elim (as_dict value) [
  | none ↦ (some (configuration_error (codes "invalid `theme`, expected dictionary")), theme)
  | some dict ↦ elim (parse_config dict) [
    | raised e ↦ (some e, theme)
    | parsed theme' ↦ (none, theme')
  ]
]

unfoldable pub colored_console_options :
    (ℕ → Bool) → Options → Settings → Theme → Option Raised × Settings × Theme
unfolding format_sink_options try_get theme_option
colored_console_options registered options settings theme =
    let (e, settings') = format_sink_options registered options settings in
    elim e [
      | some e' ↦ (some e', settings', theme)
      | none ↦ elim (try_get (codes "theme") options) [
        | none ↦ (none, settings', theme)
        | some value ↦ let r = theme_option value theme in (r.0, settings', r.1)
      ]
    ]

-- `Theme::applyTo`
unfoldable pub apply_to : Theme → List Chunk → LogLevel → Text → Option (List Chunk)
unfolding get_fg_color
apply_to theme os level str = get_fg_color theme level >>= λ color.
    some (os ++ elim color [ some c ↦ fg c ∷ bytes str ∷ reset ∷ [] | none ↦ bytes str ∷ [] ])

module _ (formatter : OnFormat) where
  -- `Console::sink`
  unfoldable pub console_sink : List Chunk → Entry → Option (List Chunk)
  console_sink os entry = formatter entry.name entry.level entry.buffer [] >>= λ format_buf.
      some ((os ++ (bytes format_buf ∷ [])) ++ (bytes (10 ∷ []) ∷ []))

  -- `ColoredConsole::sink`
  unfoldable pub colored_sink : Theme → List Chunk → Entry → Option (List Chunk)
  unfolding apply_to
  colored_sink theme os entry = formatter entry.name entry.level entry.buffer [] >>= λ format_buf.
      apply_to theme os entry.level format_buf >>= λ os'. some (os' ++ (bytes (10 ∷ []) ∷ []))

-- Entries one behind the other, for either sink.
unfoldable pub sink_each :
    (List Chunk → Entry → Option (List Chunk)) → List Chunk → List Entry → Option (List Chunk)
sink_each one os [] = some os
sink_each one os (entry ∷ entries) = one os entry >>= λ os'. sink_each one os' entries
