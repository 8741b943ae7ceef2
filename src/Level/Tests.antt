-- ===== src/Level/Tests.antt =====
-- Names of levels.
use logpp.Common.{codes, some, ◌≡◌, refl}
use logpp.Level.{warning, parse_level, iequals}

upper_case : parse_level (codes "WaRN") ≡ some warning
unfolding parse_level iequals
upper_case = refl
