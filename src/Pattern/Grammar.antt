-- ===== src/Pattern/Grammar.antt =====
-- The patterns as sequences of tokens, and what each stands for.
use logpp.Common.{
  ℕ, ◌≡◌, refl, Bool, true, false, List, [], ◌∷◌, ◌++◌, append-nil, append_assoc, codes, ◌==◌,
}
use logpp.Pattern.{
  Zone, utc, local, Part, year, month, day, hours, minutes, seconds, milliseconds, microseconds,
  Plain, thread_id, event_text, level_name, logger_name, source_file, source_line, FlagFormatter,
  literal, zoned, plain, fields, custom, default_label, label_of, ok, and_then, until_bracket,
  parse_flag_parameter, flush, parse_label, parse_flag, parse_percent, parse_loop, parse_full,
}

pub data Token : Type 0 where
  text : List ℕ → Token
  part : Part → Token
  go_local : Token
  flag : Plain → Token
  fields_with : List ℕ → Token
  custom_with : ℕ → List ℕ → Token
  full : Token

unfoldable pub char_of : Part → ℕ
char_of year = b'Y'
char_of month = b'm'
char_of day = b'd'
char_of hours = b'H'
char_of minutes = b'M'
char_of seconds = b'S'
char_of milliseconds = b'i'
char_of microseconds = b'u'

unfoldable pub plain_char : Plain → ℕ
plain_char thread_id = b't'
plain_char event_text = b'v'
plain_char level_name = b'l'
plain_char logger_name = b'n'
plain_char source_file = b'p'
plain_char source_line = b'o'

unfoldable pub render_token : Token → List ℕ
unfolding char_of plain_char
render_token (text s) = s
render_token (part p) = b'%' ∷ char_of p ∷ []
render_token go_local = b'%' ∷ b'L' ∷ []
render_token (flag p) = b'%' ∷ plain_char p ∷ []
render_token (fields_with s) = b'%' ∷ b'f' ∷ b'[' ∷ (s ++ (b']' ∷ []))
render_token (custom_with c s) = b'%' ∷ c ∷ b'[' ∷ (s ++ (b']' ∷ []))
render_token full = b'%' ∷ b'+' ∷ []

-- The pattern that a sequence of tokens is written as.
unfoldable pub render : List Token → List ℕ
unfolding render_token
render [] = []
render (t ∷ ts) = render_token t ++ render ts

-- The date and time in UTC, the level, the logger's name, the text and the fields.
abbrev pub full_formatters : List FlagFormatter
full_formatters =
    zoned year utc
    ∷ literal (codes "-")
    ∷ zoned month utc
    ∷ literal (codes "-")
    ∷ zoned day utc
    ∷ literal (codes " ")
    ∷ zoned hours utc
    ∷ literal (codes ":")
    ∷ zoned minutes utc
    ∷ literal (codes ":")
    ∷ zoned seconds utc
    ∷ literal (codes " [")
    ∷ plain level_name
    ∷ literal (codes "] (")
    ∷ plain logger_name
    ∷ literal (codes ") ")
    ∷ plain event_text
    ∷ fields (codes " - ")
    ∷ []

-- The formatters of one token, and the zone behind it.
unfoldable pub token_meaning : Zone → Token → List FlagFormatter × Zone
token_meaning zone (text s) = (flush s, zone)
token_meaning zone (part p) = (zoned p zone ∷ [], zone)
token_meaning zone go_local = ([], local)
token_meaning zone (flag p) = (plain p ∷ [], zone)
token_meaning zone (fields_with s) = (fields s ∷ [], zone)
token_meaning zone (custom_with c s) = (custom c s ∷ [], zone)
token_meaning zone full = (full_formatters, utc)

unfoldable pub meaning : Zone → List Token → List FlagFormatter × Zone
unfolding token_meaning
meaning zone [] = ([], zone)
meaning zone (t ∷ ts) =
    let m = token_meaning zone t in let rest = meaning m.1 ts in (m.0 ++ rest.0, rest.1)

-- No byte of the text is `c`.
abbrev pub Lacks : ℕ → List ℕ → Type 0
Lacks c [] = Unit
Lacks c (d ∷ s) = ((d == c) ≡ false) × Lacks c s

module _ (registered : ℕ → Bool) where
  -- No `%` in a text, no bracket in a parameter, custom flags that are registered and stand for nothing
  -- else; and no text directly behind a text.
  abbrev pub IsProper : Bool → List Token → Type 0
  IsProper after_text [] = Unit
  IsProper after_text (text s ∷ ts) = (after_text ≡ false) × Lacks b'%' s × IsProper true ts
  IsProper after_text (part p ∷ ts) = IsProper false ts
  IsProper after_text (go_local ∷ ts) = IsProper false ts
  IsProper after_text (flag p ∷ ts) = IsProper false ts
  IsProper after_text (fields_with s ∷ ts) = Lacks b']' s × IsProper false ts
  IsProper after_text (custom_with c s ∷ ts) =
      (label_of c ≡ default_label)
      × ((c == b'+') ≡ false)
      × (registered c ≡ true)
      × Lacks b']' s
      × IsProper false ts
  IsProper after_text (full ∷ ts) = IsProper false ts

  pub parse_full-formatters : parse_full registered ≡ ok (full_formatters, utc)
  unfolding parse_full parse_loop parse_percent parse_flag parse_label label_of and_then
      parse_flag_parameter until_bracket
  parse_full-formatters = refl

pub until_bracket-param :
    (param s rest : List ℕ)
    → Lacks b']' s
    → until_bracket param (s ++ (b']' ∷ rest)) ≡ ok (param ++ s, rest)
unfolding until_bracket
until_bracket-param param [] rest h = rw (append-nil param) refl
until_bracket-param param (c ∷ s) rest (e, h) =
    rw (e, until_bracket-param (param ++ (c ∷ [])) s rest h, append_assoc param (c ∷ []) s) refl
