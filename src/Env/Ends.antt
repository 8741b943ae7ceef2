-- ===== src/Env/Ends.antt =====
-- When the loop of `expandEnvironmentVariables` ends.
use logpp.Common.{
  ℕ, zero, suc, ◌+◌, ◌≤◌, ◌<◌, ◌≡◌, refl, subst, Bool, true, false, Option, none, some, List, [],
  ◌∷◌, ◌++◌, append-nil, if◌then◌else◌, ◌==◌, arith, Bool-cases, Option-cases, inl, inr,
}
use logpp.Env.{until, match_here, search_variable, value_of, expand_environment_variables}

-- The number of dollar signs.
unfoldable pub dollars : List ℕ → ℕ
dollars [] = 0
dollars (c ∷ s) = if c == b'$' then suc (dollars s) else dollars s

dollars-append : (s t : List ℕ) → dollars (s ++ t) ≡ dollars s + dollars t
unfolding dollars
dollars-append [] t = omega arith
dollars-append (c ∷ s) t = elim (Bool-cases (c == b'$')) [
  | inl e ↦ rw e (omega (arith, dollars-append s t))
  | inr e ↦ rw e (dollars-append s t)
]

dollars-cons :
    (c : ℕ) (s : List ℕ) → (dollars s ≤ dollars (c ∷ s)) × (dollars (c ∷ s) ≤ suc (dollars s))
unfolding dollars
dollars-cons c s = elim (Bool-cases (c == b'$')) [
  | inl e ↦ rw e (omega arith, omega arith)
  | inr e ↦ rw e (omega arith, omega arith)
]

dollars-dollar : (c d : ℕ) (s : List ℕ) → (c == b'$') ≡ true → suc (dollars s) ≤ dollars (c ∷ d ∷ s)
unfolding dollars
dollars-dollar c d s e =
    let below : dollars s ≤ dollars (d ∷ s) = (dollars-cons d s).0 in rw e (omega (arith, below))

dollars-front : (c : ℕ) (s : List ℕ) → dollars (c ∷ s) ≡ dollars (c ∷ []) + dollars s
unfolding dollars
dollars-front c s = elim (Bool-cases (c == b'$')) [
  | inl e ↦ rw e (omega arith)
  | inr e ↦ rw e (omega arith)
]

dollars-nil : dollars [] ≡ 0
unfolding dollars
dollars-nil = refl

-- The parts that are found have no more dollar signs than `n`.
abbrev Within : ℕ → Option (List ℕ × List ℕ) → Type 0
Within n none = Unit
Within n (some (t, rest)) = dollars rest ≤ n

until-Within : (c : ℕ) (s : List ℕ) → Within (dollars s) (until c s)
unfolding until
until-Within c [] = tt
until-Within c (d ∷ s) = step (d == c) (until c s) (until-Within c s)
  where
    step :
        (b : Bool) (later : Option (List ℕ × List ℕ))
        → Within (dollars s) later
        → Within (dollars (d ∷ s)) (
            if b
            then some ([], s)
            else elim later [ none ↦ none | some (t, rest) ↦ some (d ∷ t, rest) ])
    step true later h = (dollars-cons d s).0
    step false none h = tt
    step false (some (t, rest)) h = omega (arith, h, (dollars-cons d s).0)

-- One less behind a reference.
abbrev Below : ℕ → Option (List ℕ × List ℕ) → Type 0
Below n none = Unit
Below n (some (name, rest)) = suc (dollars rest) ≤ n

match_here-Below : (s : List ℕ) → Below (dollars s) (match_here s)
unfolding match_here
match_here-Below [] = tt
match_here-Below (c ∷ []) = tt
match_here-Below (c ∷ d ∷ s) = elim (Bool-cases (c == b'$')) [
  | inl e ↦ rw e (step (d == b'{') (until b'}' s) (until-Within b'}' s) (dollars-dollar c d s e))
  | inr e ↦ rw e tt
]
  where
    step :
        (b : Bool) (found : Option (List ℕ × List ℕ))
        → Within (dollars s) found
        → suc (dollars s) ≤ dollars (c ∷ d ∷ s)
        → Below (dollars (c ∷ d ∷ s)) (
            if b
            then elim found [
              | none ↦ none
              | some ([], rest) ↦ none
              | some (e ∷ name, rest) ↦ some (e ∷ name, rest)
            ]
            else none)
    step false found h g = tt
    step true none h g = tt
    step true (some ([], rest)) h g = tt
    step true (some (e ∷ name, rest)) h g = omega (arith, h, g)

-- One less around a reference.
abbrev Fewer : ℕ → Option (List ℕ × List ℕ × List ℕ) → Type 0
Fewer n none = Unit
Fewer n (some (before, name, rest)) = suc (dollars before + dollars rest) ≤ n

search_variable-Fewer : (s : List ℕ) → Fewer (dollars s) (search_variable s)
unfolding search_variable
search_variable-Fewer [] = tt
search_variable-Fewer (c ∷ s) =
    step (match_here (c ∷ s)) (search_variable s) (match_here-Below (c ∷ s))
      (search_variable-Fewer s)
  where
    step :
        (here : Option (List ℕ × List ℕ)) (later : Option (List ℕ × List ℕ × List ℕ))
        → Below (dollars (c ∷ s)) here
        → Fewer (dollars s) later
        → Fewer (dollars (c ∷ s)) (elim here [
          | some (name, rest) ↦ some ([], name, rest)
          | none ↦ elim later [
            | none ↦ none
            | some (before, name, rest) ↦ some (c ∷ before, name, rest)
          ]
        ])
    step (some (name, rest)) later h g = omega (arith, h, dollars-nil)
    step none none h g = tt
    step none (some (before, name, rest)) h g =
        omega (arith, g, dollars-front c before, dollars-front c s)

module _ (getenv : List ℕ → Option (List ℕ))
    (plain_values : (name value : List ℕ) → getenv name ≡ some value → dollars value ≡ 0) where
  value_of-dollars : (name : List ℕ) → dollars (value_of getenv name) ≡ 0
  value_of-dollars name = elim (Option-cases (getenv name)) [
    | inl e ↦ rw (value_of, e) dollars-nil
    | inr (value, e) ↦ rw (value_of, e) (plain_values name value e)
  ]

  -- Where no variable's value has a dollar sign, the loop ends after as many rounds as the text has dollar
  -- signs, and no reference is left in what it gives.
  pub expand_environment_variables-ends :
      (fuel : ℕ) (s : List ℕ)
      → dollars s < fuel
      → (res : List ℕ) × (expand_environment_variables getenv fuel s ≡ some res)
        × (search_variable res ≡ none)
  unfolding expand_environment_variables
  expand_environment_variables-ends zero s h = absurd (omega arith)
  expand_environment_variables-ends (suc fuel) s h = elim (Option-cases (search_variable s)) [
    | inl e ↦ (s, rw (expand_environment_variables, e) refl, e)
    | inr ((before, name, rest), e) ↦
        let fewer : suc (dollars before + dollars rest) ≤ dollars s =
          subst (λ o. Fewer (dollars s) o) e (search_variable-Fewer s) in
        let later =
          expand_environment_variables-ends fuel (before ++ (value_of getenv name ++ rest)) (
            omega (
              arith,
              fewer,
              h,
              dollars-append before (value_of getenv name ++ rest),
              dollars-append (value_of getenv name) rest,
              value_of-dollars name,
            )) in
        (later.0, rw (expand_environment_variables, e) later.1, later.2)
  ]

-- Where the value of a variable is a reference to itself, the loop does not end on that reference.
pub expand_environment_variables-endless :
    (getenv : List ℕ → Option (List ℕ)) (name reference : List ℕ) (fuel : ℕ)
    → search_variable reference ≡ some ([], name, [])
    → getenv name ≡ some reference
    → expand_environment_variables getenv fuel reference ≡ none
unfolding expand_environment_variables
expand_environment_variables-endless getenv name reference zero found defined = refl
expand_environment_variables-endless getenv name reference (suc fuel) found defined =
    rw (expand_environment_variables, found, value_of, defined, append-nil reference)
      (expand_environment_variables-endless getenv name reference fuel found defined)
