-- ===== src/Pattern/Unclosed.antt =====
-- Patterns that end within a parameter.
use logpp.Common.{
  ℕ, zero, suc, ◌<◌, ◌≡◌, refl, List, [], ◌∷◌, ◌++◌, length, length-append, arith, Bool,
}
use logpp.Pattern.{
  Zone, utc, out_of_bounds, and_then, until_bracket, parse_flag_parameter, parse_label, label_of,
  parse_flag, parse_percent, parse_loop, parse_full, parse_pattern,
}
use logpp.Pattern.Grammar.{Lacks}

until_bracket-unclosed : (param s : List ℕ) → Lacks b']' s → until_bracket param s ≡ out_of_bounds
unfolding until_bracket
until_bracket-unclosed param [] h = refl
until_bracket-unclosed param (c ∷ s) (e, h) =
    rw (e) (until_bracket-unclosed (param ++ (c ∷ [])) s h)

module _ (registered : ℕ → Bool) where
  parse_loop-unclosed :
      (text s : List ℕ) (fuel : ℕ) (zone : Zone) (lit : List ℕ)
      → Lacks b'%' text
      → Lacks b']' s
      → length text < fuel
      → parse_loop registered
          (parse_full registered)
          fuel
          zone
          lit
          (text ++ (b'%' ∷ b'f' ∷ b'[' ∷ s))
        ≡ out_of_bounds
  unfolding parse_loop parse_percent parse_flag parse_label label_of parse_flag_parameter and_then
  parse_loop-unclosed text s zero zone lit h g more = absurd (omega arith)
  parse_loop-unclosed [] s (suc fuel) zone lit h g more = rw (until_bracket-unclosed [] s g) refl
  parse_loop-unclosed (c ∷ text) s (suc fuel) zone lit (e, h) g more =
      rw e (parse_loop-unclosed text s fuel zone (lit ++ (c ∷ [])) h g (omega (arith, more)))

  -- A pattern whose first flag is `%f[` and has no closing bracket is read past its end.
  pub parse_pattern-unclosed :
      (text s : List ℕ)
      → Lacks b'%' text
      → Lacks b']' s
      → parse_pattern registered (text ++ (b'%' ∷ b'f' ∷ b'[' ∷ s)) ≡ out_of_bounds
  unfolding parse_pattern
  parse_pattern-unclosed text s h g =
      parse_loop-unclosed text s (suc (length (text ++ (b'%' ∷ b'f' ∷ b'[' ∷ s)))) utc [] h g
        (omega (arith, length-append text (b'%' ∷ b'f' ∷ b'[' ∷ s)))
