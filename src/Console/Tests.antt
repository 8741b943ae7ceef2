-- ===== src/Console/Tests.antt =====
-- Consoles at concrete entries and themes.
use logpp.Common.{◌≡◌, refl, none, some, List, [], ◌∷◌, ◌++◌, codes, Option}
use logpp.Level.{LogLevel, debug, info, warning, parse_level, iequals}
use logpp.Event.{new_event}
use logpp.Logger.{Entry}
use logpp.Format.{OnFormat}
use logpp.Options.{Dict, Text}
use logpp.FileSink.Settings.{undefined}
use logpp.Console.{
  Color, red, gray, Chunk, bytes, Theme, get_fg_color, parse_color, parsed, raised, parse_config,
  colored_sink, sink_each,
}
use logpp.Console.Themes.{IsThemeDict, last_color, colors_of, parse_config-colors, parse_config-off}
use logpp.Console.Painted.{painted, color_behind, page, colored_sink-painted}

-- A formatter that prints the name.
abbrev name_only : OnFormat
name_only name level e out = some (out ++ name)

abbrev entry : LogLevel → Entry
entry level = record { name = codes "net"; level = level; buffer = new_event }

abbrev theme : Theme
theme = none ∷ some gray ∷ none ∷ some red ∷ none ∷ []

abbrev lines : List (Option Color × Text)
lines = (some red, codes "net") ∷ (none, codes "net") ∷ []

colored_sink-painted_example :
    (os : List Chunk) × (sink_each
        (colored_sink name_only theme)
        (bytes (codes "> ") ∷ [])
        (entry warning ∷ entry info ∷ [])
      ≡ some os)
    × (color_behind none os ≡ none)
    × (painted none os ≡ painted none (bytes (codes "> ") ∷ []) ++ page lines)
unfolding get_fg_color
colored_sink-painted_example =
    colored_sink-painted name_only theme (bytes (codes "> ") ∷ []) (entry warning ∷ entry info ∷ [])
      lines refl
      (
        some red,
        codes "net",
        (none, codes "net") ∷ [],
        refl,
        refl,
        refl,
        (none, codes "net", [], refl, refl, refl, refl),
      )

abbrev dict : Dict
dict =
    (codes "debug", codes "red") ∷ (codes "warn", codes "Red") ∷ (codes "Debug", codes "gray") ∷ []

dict-IsThemeDict : IsThemeDict dict
unfolding parse_color iequals parse_level
dict-IsThemeDict = (
  (debug, refl, λ e. cc),
  (red, refl),
  ((warning, refl, λ e. cc), (red, refl), ((debug, refl, λ e. cc), (gray, refl), tt)),
)

parse_config-colors_example :
    parse_config dict ≡ parsed (colors_of (λ level. last_color level dict none))
parse_config-colors_example = parse_config-colors dict dict-IsThemeDict

parse_config-off_example :
    parse_config (dict ++ ((codes "OFF", codes "gray") ∷ [])) ≡ raised undefined
unfolding parse_color iequals parse_level
parse_config-off_example =
    parse_config-off dict [] (codes "OFF") (codes "gray") gray dict-IsThemeDict refl refl
