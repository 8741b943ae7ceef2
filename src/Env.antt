-- ===== src/Env.antt =====
-- `expandEnvironmentVariables` of include/logpp/utils/env.h: `${NAME}` is replaced by the value of the
-- variable, until no reference is left. `getenv` is a parameter.
pub mod Ends
mod Tests
use logpp.Common.{ℕ, zero, suc, ◌&&◌, Option, none, some, List, [], ◌∷◌, ◌++◌, if◌then◌else◌, ◌==◌}

-- What stands before a byte, and what stands behind it.
unfoldable pub until : ℕ → List ℕ → Option (List ℕ × List ℕ)
until c [] = none
until c (d ∷ s) =
    let later = until c s in
    if d == c
    then some ([], s)
    else elim later [ none ↦ none | some (t, rest) ↦ some (d ∷ t, rest) ]

-- The regular expression, at the front of a text: the name and the rest.
unfoldable pub match_here : List ℕ → Option (List ℕ × List ℕ)
unfolding until
match_here (c ∷ d ∷ s) =
    if c == b'$' && d == b'{'
    then elim (until b'}' s) [
      | none ↦ none
      | some ([], rest) ↦ none
      | some (e ∷ name, rest) ↦ some (e ∷ name, rest)
    ]
    else none
match_here _ = none

-- `std::regex_search`: the first match, with what stands before it.
unfoldable pub search_variable : List ℕ → Option (List ℕ × List ℕ × List ℕ)
unfolding match_here
search_variable [] = none
search_variable (c ∷ s) =
    let later = search_variable s in
    elim (match_here (c ∷ s)) [
      | some (name, rest) ↦ some ([], name, rest)
      | none ↦ elim later [
        | none ↦ none
        | some (before, name, rest) ↦ some (c ∷ before, name, rest)
      ]
    ]

module _ (getenv : List ℕ → Option (List ℕ)) where
  abbrev pub value_of : List ℕ → List ℕ
  value_of name = elim (getenv name) [ none ↦ [] | some value ↦ value ]

  -- The loop; `none` is one that has not ended.
  unfoldable pub expand_environment_variables : ℕ → List ℕ → Option (List ℕ)
  unfolding search_variable
  expand_environment_variables zero res = none
  expand_environment_variables (suc fuel) res =
      let again = expand_environment_variables fuel in
      elim (search_variable res) [
        | none ↦ some res
        | some (before, name, rest) ↦ again (before ++ (value_of name ++ rest))
      ]
