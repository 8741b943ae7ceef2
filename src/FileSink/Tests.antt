-- ===== src/FileSink/Tests.antt =====
-- File sinks at concrete events and options.
use logpp.Common.{
  ℕ, ◌+◌, ◌-◌, ◌*◌, ◌≡◌, refl, false, ◌&&◌, Option, none, some, List, [], ◌∷◌, ◌++◌, codes, same,
  leb, if◌then◌else◌,
}
use logpp.Level.{info, iequals}
use logpp.Event.{new_event}
use logpp.Logger.{Entry}
use logpp.Format.{OnFormat}
use logpp.Registry.{find}
use logpp.Options.{Options, OptionValue, string_value, dict_value, try_get}
use logpp.Env.{expand_environment_variables, search_variable, match_here, until}
use logpp.Rolling.Filebuf.{appending, RollingFilebuf, roll_by_size, apply_incremental}
use logpp.Rolling.Filebuf.History.{IsRolling, history}
use logpp.Rolling.Tests.{
  base, disk, buf, buf-IsRolling, buf-CanArchive, all_permitted, all_openable, at_start,
}
use logpp.FileSink.{Times, sink_entries}
use logpp.FileSink.History.{sink_on, text_of_lines, sink_entries-history}
use logpp.FileSink.Sizes.{ℤ, pos, parse_size}
use logpp.FileSink.Settings.{
  Settings, by_size, incremental, and_next, format_sink_options, with_file, make_file,
  parse_rolling, parse_rolling_size, parse_archive, parse_rolling_and_archive,
  rolling_file_sink_options,
}

-- A formatter that prints the name.
abbrev name_only : OnFormat
name_only name level e out = some (out ++ name)

abbrev times : Times
times = record { at_check = 1; at_roll = 2; at_write = 3 }

abbrev entry : Entry
entry = record { name = codes "net"; level = info; buffer = new_event }

abbrev app_buf : RollingFilebuf Unit
app_buf = record buf { open_mode = appending }

app_buf-IsRolling : IsRolling app_buf 1 (codes "new")
app_buf-IsRolling = record {
  is_opened = refl;
  at_path = buf-IsRolling.at_path;
  at_end = refl;
  taken = buf-IsRolling.taken;
  free = buf-IsRolling.free;
}

sink_entries-history_example :
    (b' : RollingFilebuf Unit) × (m : ℕ) × (c' : List ℕ) × (sink_entries
        (roll_by_size 3)
        (apply_incremental all_permitted all_openable at_start 4)
        (sink_on name_only app_buf)
        ((times, entry) ∷ (times, entry) ∷ [])
      ≡ some (sink_on name_only b'))
    × IsRolling b' m c'
    × (history base m b'.files
        ≡ history base 1 disk ++ text_of_lines (codes "net" ∷ codes "net" ∷ []))
sink_entries-history_example =
    sink_entries-history all_permitted (λ s t. refl) all_openable at_start refl (roll_by_size 3) 4
      name_only app_buf 1 (codes "new") ((times, entry) ∷ (times, entry) ∷ [])
      (codes "net" ∷ codes "net" ∷ []) app_buf-IsRolling buf-CanArchive (refl, (refl, tt))

-- A `strtoll` of decimal digits.
abbrev digits : ℕ → List ℕ → ℤ × List ℕ
digits n [] = (pos n, [])
digits n (c ∷ s) =
    let more = digits (n * 10 + (c - b'0')) s in
    if leb b'0' c && leb c b'9' then more else (pos n, c ∷ s)

abbrev home : List ℕ → Option (List ℕ)
home name = some (codes "/root")

abbrev no_settings : Settings
no_settings = record { formatter = none; file = none }

abbrev options_with : OptionValue → Options
options_with archive =
    (codes "file", string_value (codes "${HOME}/a.log"))
    ∷ (
      codes "strategy",
      dict_value ((codes "type", codes "size") ∷ (codes "size", codes "10MB") ∷ []),
    )
    ∷ (codes "archive", archive)
    ∷ []

-- A strategy of an unknown type raises nothing, and gives no file either.
abbrev ignored : Options
ignored =
    (codes "file", string_value (codes "/a.log"))
    ∷ (codes "strategy", dict_value ((codes "type", codes "daily") ∷ []))
    ∷ (codes "archive", string_value (codes "incremental"))
    ∷ []

-- A dictionary gives the file.
rolling_file_sink_options-run :
    rolling_file_sink_options home 5
      (λ c. false)
      (digits 0)
      (options_with (dict_value ((codes "type", codes "incremental") ∷ [])))
      no_settings
    ≡ (
      none,
      record {
        formatter = none;
        file = some (record {
          path = codes "/root/a.log";
          strategies = some (by_size 10485760, incremental);
        });
      },
    )
unfolding rolling_file_sink_options and_next format_sink_options with_file make_file
    parse_rolling_and_archive parse_rolling parse_rolling_size parse_archive parse_size iequals
    try_get find expand_environment_variables search_variable match_here until same
rolling_file_sink_options-run = refl
