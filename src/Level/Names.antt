-- ===== src/Level/Names.antt =====
-- Reading a level back from its name.
use logpp.Common.{
  ℕ, true, Option, none, some, List, [], ◌∷◌, map, codes, ◌≡◌, ◌↔◌, refl, ◌∙◌, sym, arith, same,
  same_iff, if◌then◌else◌,
}
use logpp.Level.{
  LogLevel, trace, debug, info, warning, error, off, level_string, to_lower, iequals, parse_level,
}

-- `iequals` compares the texts in lower case.
pub iequals-same : (s t : List ℕ) → iequals s t ≡ same (map to_lower s) (map to_lower t)
unfolding iequals same
iequals-same [] [] = refl
iequals-same [] (d ∷ t) = refl
iequals-same (c ∷ s) [] = refl
iequals-same (c ∷ s) (d ∷ t) = rw (iequals-same s t)

-- `parse_level`, on a text in lower case.
by_name : List ℕ → Option LogLevel
by_name u =
    if same u (codes "off")
    then some off
    else if same u (codes "trace")
    then some trace
    else if same u (codes "debug")
    then some debug
    else if same u (codes "info")
    then some info
    else if same u (codes "warn")
    then some warning
    else if same u (codes "error")
    then some error
    else none

parse_level-by_name : (s : List ℕ) → parse_level s ≡ by_name (map to_lower s)
unfolding parse_level by_name
parse_level-by_name s = simp iequals-same

by_name_self : (l : LogLevel) → by_name (level_string l) ≡ some l
unfolding by_name same
by_name_self trace = refl
by_name_self debug = refl
by_name_self info = refl
by_name_self warning = refl
by_name_self error = refl
by_name_self off = refl

by_name-same : (u : List ℕ) (l : LogLevel) → by_name u ≡ some l → same u (level_string l) ≡ true
unfolding by_name
by_name-same u trace h = ground arith
by_name-same u debug h = ground arith
by_name-same u info h = ground arith
by_name-same u warning h = ground arith
by_name-same u error h = ground arith
by_name-same u off h = ground arith

lower_name : (l : LogLevel) → map to_lower (level_string l) ≡ level_string l
lower_name trace = refl
lower_name debug = refl
lower_name info = refl
lower_name warning = refl
lower_name error = refl
lower_name off = refl

-- `parseLevel` accepts a text as a level exactly when the text is the level's name, in whatever
-- case; so it is the inverse of `levelString`.
pub parse_level_iff :
    (s : List ℕ) (l : LogLevel) → (parse_level s ≡ some l) ↔ (iequals s (level_string l) ≡ true)
parse_level_iff s l = (
  λ h.
      iequals-same s (level_string l)
      ∙ rw (lower_name l) (by_name-same (map to_lower s) l (sym (parse_level-by_name s) ∙ h)),
  λ h.
      parse_level-by_name s
      ∙ rw
          ((same_iff (map to_lower s) (level_string l)).0
            (rw (lower_name l) at (sym (iequals-same s (level_string l)) ∙ h)))
          (by_name_self l),
)
