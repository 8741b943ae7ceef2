-- ===== src/Pattern/Total.antt =====
-- The loops of the parser end within their fuel.
use logpp.Common.{
  ℕ, zero, suc, ◌≤◌, ◌<◌, ◌≢◌, List, [], ◌∷◌, ◌++◌, length, ◌==◌, arith, Bool, Bool-cases, inl, inr,
}
use logpp.Pattern.{
  Zone, utc, FlagFormatter, Label, part_label, local_label, plain_label, fields_label,
  default_label, Parsed, ok, unknown_flag, out_of_bounds, no_fuel, and_then, until_bracket,
  parse_flag_parameter, parse_label, label_of, parse_flag, parse_percent, parse_loop, parse_full,
  parse_pattern,
}
use logpp.Pattern.Grammar.{parse_full-formatters}

-- The fuel is not used up, and a result has the property.
abbrev Ends : {A : Type 0} → (A → Type 0) → Parsed A → Type 0
Ends P (ok a) = P a
Ends P (unknown_flag c) = Unit
Ends P out_of_bounds = Unit
Ends P no_fuel = ⊥

and_then-Ends :
    {A B : Type 0} (P : A → Type 0) (Q : B → Type 0) (x : Parsed A) (f : A → Parsed B)
    → Ends P x
    → ((a : A) → P a → Ends Q (f a))
    → Ends Q (and_then x f)
unfolding and_then
and_then-Ends P Q (ok a) f p g = g a p
and_then-Ends P Q (unknown_flag c) f p g = tt
and_then-Ends P Q out_of_bounds f p g = tt
and_then-Ends P Q no_fuel f p g = absurd p

until_bracket-Ends :
    (n : ℕ) (param s : List ℕ) → length s ≤ n → Ends (λ r. length r.1 ≤ n) (until_bracket param s)
unfolding until_bracket
until_bracket-Ends n param [] h = tt
until_bracket-Ends n param (c ∷ s) h = elim (Bool-cases (c == b']')) [
  | inl e ↦ rw e (omega (arith, h))
  | inr e ↦ rw e (until_bracket-Ends n (param ++ (c ∷ [])) s (omega (arith, h)))
]

parse_flag_parameter-Ends :
    (s : List ℕ) → Ends (λ r. length r.1 ≤ length s) (parse_flag_parameter s)
unfolding parse_flag_parameter
parse_flag_parameter-Ends [] = omega arith
parse_flag_parameter-Ends (c ∷ s) = elim (Bool-cases (c == b'[')) [
  | inl e ↦ rw e (until_bracket-Ends (suc (length s)) [] s (omega arith))
  | inr e ↦ rw e (omega arith)
]

module _ (registered : ℕ → Bool) where
  parse_label-Ends :
      (l : Label) (zone : Zone) (c : ℕ) (rest : List ℕ)
      → Ends (λ r. length r.2 ≤ length rest) (parse_label registered l zone c rest)
  unfolding parse_label
  parse_label-Ends (part_label p) zone c rest = omega arith
  parse_label-Ends local_label zone c rest = omega arith
  parse_label-Ends (plain_label p) zone c rest = omega arith
  parse_label-Ends fields_label zone c rest =
      and_then-Ends (λ r. length r.1 ≤ length rest) (λ r. length r.2 ≤ length rest)
        (parse_flag_parameter rest) _ (parse_flag_parameter-Ends rest) (λ a p. p)
  parse_label-Ends default_label zone c rest = elim (Bool-cases (registered c)) [
    | inl e ↦ rw e (
        and_then-Ends (λ r. length r.1 ≤ length rest) (λ r. length r.2 ≤ length rest)
          (parse_flag_parameter rest) _ (parse_flag_parameter-Ends rest) (λ a p. p))
    | inr e ↦ rw e tt
  ]

  parse_percent-Ends :
      (zone : Zone) (rest : List ℕ)
      → Ends
          (λ r. length r.2 ≤ length rest)
          (parse_percent registered (parse_full registered) zone rest)
  unfolding parse_percent parse_flag
  parse_percent-Ends zone [] = omega arith
  parse_percent-Ends zone (c ∷ rest) = elim (Bool-cases (c == b'+')) [
    | inl e ↦ rw (e, parse_full-formatters registered) (omega arith)
    | inr e ↦ rw e (
        longer (parse_label registered (label_of c) zone c rest)
          (parse_label-Ends (label_of c) zone c rest))
  ]
    where
      longer :
          (x : Parsed (List FlagFormatter × Zone × List ℕ))
          → Ends (λ r. length r.2 ≤ length rest) x
          → Ends (λ r. length r.2 ≤ suc (length rest)) x
      longer (ok r) h = omega (arith, h)
      longer (unknown_flag d) h = tt
      longer out_of_bounds h = tt
      longer no_fuel h = h

  parse_loop-Ends :
      (fuel : ℕ) (zone : Zone) (lit pattern : List ℕ)
      → length pattern < fuel
      → Ends (λ r. Unit) (parse_loop registered (parse_full registered) fuel zone lit pattern)
  unfolding parse_loop
  parse_loop-Ends zero zone lit pattern h = absurd (omega arith)
  parse_loop-Ends (suc fuel) zone lit [] h = tt
  parse_loop-Ends (suc fuel) zone lit (c ∷ rest) h = elim (Bool-cases (c == b'%')) [
    | inl e ↦ rw e (
        and_then-Ends (λ r. length r.2 ≤ length rest) (λ r. Unit)
          (parse_percent registered (parse_full registered) zone rest) _
          (parse_percent-Ends zone rest)
          (λ r le.
            and_then-Ends (λ s. Unit) (λ s. Unit)
              (parse_loop registered (parse_full registered) fuel r.1 [] r.2) _
              (parse_loop-Ends fuel r.1 [] r.2 (omega (arith, le, h))) (λ a p. tt)))
    | inr e ↦ rw e (parse_loop-Ends fuel zone (lit ++ (c ∷ [])) rest (omega (arith, h)))
  ]

  Ends-ne : (x : Parsed (List FlagFormatter × Zone)) → Ends (λ r. Unit) x → x ≢ no_fuel
  Ends-ne (ok r) h e = cc
  Ends-ne (unknown_flag c) h e = cc
  Ends-ne out_of_bounds h e = cc
  Ends-ne no_fuel h e = absurd h

  -- The fuel is enough for every pattern: the parser ends with formatters, with the exception, or with
  -- an access out of bounds.
  pub parse_pattern-ends : (pattern : List ℕ) → parse_pattern registered pattern ≢ no_fuel
  unfolding parse_pattern
  parse_pattern-ends pattern =
      Ends-ne (parse_pattern registered pattern)
        (parse_loop-Ends (suc (length pattern)) utc [] pattern (omega arith))
