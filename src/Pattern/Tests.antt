-- ===== src/Pattern/Tests.antt =====
-- The theorems on patterns at concrete patterns.
use logpp.Common.{ℕ, ◌≡◌, ◌≢◌, refl, Bool, List, [], ◌∷◌, codes, ◌==◌}
use logpp.Pattern.{utc, hours, label_of, ok, no_fuel, parse_pattern}
use logpp.Pattern.Grammar.{
  Token, text, part, go_local, fields_with, custom_with, full, render, meaning,
}
use logpp.Pattern.Parse.{parse_pattern-render}
use logpp.Pattern.Total.{parse_pattern-ends}

-- `%Q` is a custom flag.
abbrev only_q : ℕ → Bool
only_q c = c == b'Q'

abbrev tokens : List Token
tokens =
    go_local
    ∷ part hours
    ∷ text (codes " x ")
    ∷ custom_with b'Q' (codes "a")
    ∷ full
    ∷ part hours
    ∷ fields_with (codes " - ")
    ∷ []

parse_pattern-render_example : parse_pattern only_q (render tokens) ≡ ok (meaning utc tokens)
unfolding label_of
parse_pattern-render_example = parse_pattern-render only_q tokens (
  refl,
  (refl, (refl, (refl, tt))),
  (refl, refl, refl, (refl, tt), ((refl, (refl, (refl, tt))), tt)),
)

parse_pattern-ends_example : parse_pattern only_q (codes "%H %f[") ≢ no_fuel
parse_pattern-ends_example = parse_pattern-ends only_q (codes "%H %f[")
