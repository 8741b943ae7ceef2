-- ===== src/Console/Themes.antt =====
-- The themes that a configuration gives.
use logpp.Common.{
  ℕ, zero, suc, ◌<◌, ◌≤◌, ◌≡◌, ◌≢◌, refl, ap, ◌∙◌, Bool, true, false, Option, none, some, List, [],
  ◌∷◌, ◌++◌, length, get_elem?, if◌then◌else◌, ◌==◌, arith,
}
use logpp.Level.{LogLevel, trace, debug, info, warning, error, off, level_index, parse_level}
use logpp.Options.{Text, Dict}
use logpp.FileSink.Settings.{undefined}
use logpp.Console.{
  Color, Theme, ParsedTheme, new_theme, set_at, set_fg_color, get_fg_color, parse_color, parsed,
  raised, parse_theme_entry, and_parsed, parse_entries, parse_config,
}

-- Each key names a level that is logged, and each value a colour.
abbrev pub IsThemeDict : Dict → Type 0
IsThemeDict [] = Unit
IsThemeDict ((k, c) ∷ rest) =
    ((level : LogLevel) × (parse_level k ≡ some level) × (level ≢ off))
    × ((color : Color) × (parse_color c ≡ some color))
    × IsThemeDict rest

abbrev names : LogLevel → Option LogLevel → Bool
names level none = false
names level (some l) = level_index l == level_index level

-- The colour of the last entry for a level.
unfoldable pub last_color : LogLevel → Dict → Option Color → Option Color
last_color level [] color = color
last_color level ((k, c) ∷ rest) color =
    last_color level rest (if names level (parse_level k) then parse_color c else color)

if-if {ℓ} :
    {A : Type ℓ} (i j : ℕ) (a b : A) → (if suc i == suc j then a else b) ≡ (if i == j then a else b)
if-if i j a b = ground arith

set_at-get {ℓ} :
    {A : Type ℓ} (xs : List A) (i : ℕ) (a : A)
    → i < length xs
    → (ys : List A) × (set_at i a xs ≡ some ys)
      × (length ys ≡ length xs)
      × ((j : ℕ) → get_elem? ys j ≡ (if i == j then some a else get_elem? xs j))
unfolding set_at
set_at-get [] i a h = absurd (omega (arith, h))
set_at-get {A = A} (x ∷ xs) zero a h = (a ∷ xs, refl, refl, at)
  where
    at : (j : ℕ) → get_elem? (a ∷ xs) j ≡ (if zero == j then some a else get_elem? (x ∷ xs) j)
    at zero = refl
    at (suc j) = ground arith
set_at-get {A = A} (x ∷ xs) (suc i) a h =
    let (ys, e, l, g) = set_at-get xs i a (omega (arith, h)) in
    (x ∷ ys, rw e refl, omega (arith, l), at ys g)
  where
    at :
        (ys : List A)
        → ((j : ℕ) → get_elem? ys j ≡ (if i == j then some a else get_elem? xs j))
        → (j : ℕ) → get_elem? (x ∷ ys) j ≡ (if suc i == j then some a else get_elem? (x ∷ xs) j)
    at ys g zero = ground arith
    at ys g (suc j) = rw (if-if i j (some a) (get_elem? xs j)) (g j)

level_index_lt : (level : LogLevel) → level ≢ off → level_index level < 5
level_index_lt trace h = omega arith
level_index_lt debug h = omega arith
level_index_lt info h = omega arith
level_index_lt warning h = omega arith
level_index_lt error h = omega arith
level_index_lt off h = absurd (h refl)

-- Setting the colour of one level leaves the others.
set_fg_color-get :
    (level : LogLevel) (color : Color) (theme : Theme)
    → level ≢ off
    → length theme ≡ 5
    → (theme' : Theme) × (set_fg_color level color theme ≡ some theme')
      × (length theme' ≡ 5)
      × ((l : LogLevel)
          → get_fg_color theme' l ≡ (
              if level_index level == level_index l
              then some (some color)
              else get_fg_color theme l))
unfolding set_fg_color get_fg_color
set_fg_color-get level color theme h n =
    let (theme', e, l, g) =
      set_at-get theme (level_index level) (some color)
        (omega (arith, n, level_index_lt level h)) in
    (theme', e, omega (arith, l, n), λ k. g (level_index k))

some-if {ℓ} :
    {A : Type ℓ} (b : Bool) (x y : A) → (if b then some x else some y) ≡ some (if b then x else y)
some-if true x y = refl
some-if false x y = refl

parse_theme_entry-set :
    (theme theme' : Theme) (k c : Text) (level : LogLevel) (color : Color)
    → parse_level k ≡ some level
    → parse_color c ≡ some color
    → set_fg_color level color theme ≡ some theme'
    → parse_theme_entry theme k c ≡ parsed theme'
unfolding parse_theme_entry
parse_theme_entry-set theme theme' k c level color p q e = rw (parse_theme_entry, p, q, e) refl

parse_entries-colors :
    (d : Dict) (theme : Theme)
    → IsThemeDict d
    → length theme ≡ 5
    → (theme' : Theme) × (parse_entries d theme ≡ parsed theme')
      × (length theme' ≡ 5)
      × ((l : LogLevel) (color : Option Color)
          → get_fg_color theme l ≡ some color
          → get_fg_color theme' l ≡ some (last_color l d color))
unfolding parse_entries last_color parse_theme_entry
parse_entries-colors [] theme h n = (theme, refl, n, λ l color e. e)
parse_entries-colors ((k, c) ∷ rest) theme ((level, p, ne), (color, q), h) n =
    let (theme1, e, n1, g) = set_fg_color-get level color theme ne n in
    let (theme2, e2, n2, g2) = parse_entries-colors rest theme1 h n1 in
    (
      theme2,
      rw (parse_theme_entry-set theme theme1 k c level color p q e) e2,
      n2,
      λ l old o. rw (p, q) (g2 l _ (rw (g l, o) (some-if _ (some color) old))),
    )

-- The colours of the five levels that are logged.
abbrev pub colors_of : (LogLevel → Option Color) → Theme
colors_of color = color trace ∷ color debug ∷ color info ∷ color warning ∷ color error ∷ []

five-colors_of :
    (theme : Theme) (color : LogLevel → Option Color)
    → length theme ≡ 5
    → get_elem? theme 0 ≡ some (color trace)
    → get_elem? theme 1 ≡ some (color debug)
    → get_elem? theme 2 ≡ some (color info)
    → get_elem? theme 3 ≡ some (color warning)
    → get_elem? theme 4 ≡ some (color error)
    → theme ≡ colors_of color
five-colors_of (a ∷ b ∷ c ∷ d ∷ e ∷ []) color n p q r s t = cc
five-colors_of [] color n p q r s t = absurd (omega (arith, n))
five-colors_of (a ∷ []) color n p q r s t = absurd (omega (arith, n))
five-colors_of (a ∷ b ∷ []) color n p q r s t = absurd (omega (arith, n))
five-colors_of (a ∷ b ∷ c ∷ []) color n p q r s t = absurd (omega (arith, n))
five-colors_of (a ∷ b ∷ c ∷ d ∷ []) color n p q r s t = absurd (omega (arith, n))
five-colors_of (a ∷ b ∷ c ∷ d ∷ e ∷ x ∷ xs) color n p q r s t = absurd (omega (arith, n))

-- A dictionary whose keys all name levels that are logged and whose values all name colours gives a theme
-- of five colours: for each such level that of the last entry for it, and none where it has no entry.
pub parse_config-colors :
    (d : Dict)
    → IsThemeDict d
    → parse_config d ≡ parsed (colors_of (λ level. last_color level d none))
unfolding parse_config get_fg_color
parse_config-colors d h =
    let (theme, e, n, g) = parse_entries-colors d new_theme h refl in
    e
    ∙ ap parsed (
        five-colors_of theme (λ level. last_color level d none) n (g trace none refl)
          (g debug none refl) (g info none refl) (g warning none refl) (g error none refl))

and_parsed_assoc :
    (m : ParsedTheme) (h f g : Theme → ParsedTheme)
    → ((theme : Theme) → h theme ≡ and_parsed (f theme) g)
    → and_parsed m h ≡ and_parsed (and_parsed m f) g
and_parsed_assoc (parsed theme) h f g e = e theme
and_parsed_assoc (raised r) h f g e = refl

set_at-end {ℓ} : {A : Type ℓ} (xs : List A) (i : ℕ) (a : A) → length xs ≤ i → set_at i a xs ≡ none
unfolding set_at
set_at-end [] i a h = refl
set_at-end (x ∷ xs) zero a h = absurd (omega (arith, h))
set_at-end (x ∷ xs) (suc i) a h = rw (set_at-end xs i a (omega (arith, h))) refl

parse_entries-off :
    (theme : Theme) (k c : Text) (color : Color) (after : Dict)
    → length theme ≡ 5
    → parse_level k ≡ some off
    → parse_color c ≡ some color
    → parse_entries ((k, c) ∷ after) theme ≡ raised undefined
unfolding parse_entries set_fg_color
parse_entries-off theme k c color after n p q =
    rw (parse_theme_entry, p, q, set_fg_color, set_at-end theme 5 (some color) (omega (arith, n)))
      refl

parse_entries-append :
    (d d' : Dict) (theme : Theme)
    → parse_entries (d ++ d') theme ≡ and_parsed (parse_entries d theme) (parse_entries d')
unfolding parse_entries
parse_entries-append [] d' theme = refl
parse_entries-append ((k, c) ∷ d) d' theme =
    and_parsed_assoc (parse_theme_entry theme k c) (parse_entries (d ++ d')) (parse_entries d)
      (parse_entries d') (parse_entries-append d d')

-- A colour for the level `off` is written behind the end of the array of colours, whatever else the
-- dictionary holds, provided that the entries before it are right and the colour is one.
pub parse_config-off :
    (before after : Dict) (k c : Text) (color : Color)
    → IsThemeDict before
    → parse_level k ≡ some off
    → parse_color c ≡ some color
    → parse_config (before ++ ((k, c) ∷ after)) ≡ raised undefined
unfolding parse_config
parse_config-off before after k c color h p q =
    let (theme, e, n, g) = parse_entries-colors before new_theme h refl in
    rw (parse_entries-append before ((k, c) ∷ after) new_theme, e)
      (parse_entries-off theme k c color after n p q)
