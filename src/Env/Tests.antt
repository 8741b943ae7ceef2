-- ===== src/Env/Tests.antt =====
-- Environment variables in concrete texts.
use logpp.Common.{
  ℕ, ◌≡◌, refl, Option, none, some, List, codes, same, if◌then◌else◌, arith, Bool-cases, inl, inr,
  subst,
}
use logpp.Env.{search_variable, match_here, until, expand_environment_variables}
use logpp.Env.Ends.{dollars, expand_environment_variables-ends}

abbrev getenv : List ℕ → Option (List ℕ)
getenv name = if same name (codes "HOME") then some (codes "/root") else none

getenv-plain : (name value : List ℕ) → getenv name ≡ some value → dollars value ≡ 0
unfolding dollars
getenv-plain name value h = elim (Bool-cases (same name (codes "HOME"))) [
  | inl e ↦
      let found = subst (λ b. (if b then some (codes "/root") else none) ≡ some value) e h in
      let root : codes "/root" ≡ value = cc in subst (λ v. dollars v ≡ 0) root refl
  | inr e ↦
      let found = subst (λ b. (if b then some (codes "/root") else none) ≡ some value) e h in
      absurd (cc)
]

expand_environment_variables-ends_example :
    (res : List ℕ) × (expand_environment_variables getenv 3 (codes "${HOME}/${X}a") ≡ some res)
    × (search_variable res ≡ none)
expand_environment_variables-ends_example =
    expand_environment_variables-ends getenv getenv-plain 3 (codes "${HOME}/${X}a")
      (unfold dollars in (omega arith))

-- What it gives.
expand_environment_variables-run :
    expand_environment_variables getenv 3 (codes "${HOME}/${X}a") ≡ some (codes "/root/a")
unfolding expand_environment_variables search_variable match_here until same
expand_environment_variables-run = refl

abbrev looping : List ℕ → Option (List ℕ)
looping name = if same name (codes "A") then some (codes "${A}") else none
