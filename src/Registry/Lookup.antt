-- ===== src/Registry/Lookup.antt =====
-- `LoggerRegistry::get`: which logger a name gets, and that it keeps it.
use mathlib.Core.Option.{some-ne-none, some-injective}
use logpp.Common.{
  ℕ, ◌^◌, ◌<◌, ◌≡◌, ◌≢◌, refl, ◌∙◌, ap, sym, true, false, Option, none, some, List, [], ◌∷◌, ◌++◌,
  length, same, same_refl, arith, Option-cases, inl, inr, ◌⊎◌, ◌>>=◌,
}
use logpp.Registry.Ancestors.{ancestors, first, for_each-ancestors}
use logpp.Registry.{
  LoggerRegistry, Factory, find, insert, get, get_fragment, get_default, instantiate,
  register_logger, register_logger_func,
}

abbrev pub Answer : Type 0
Answer = Option ℕ × LoggerRegistry

-- `get` without its loop: the first answer along the name and its parents, or the default's.
pub resolve : LoggerRegistry → List ℕ → Answer
resolve r name = elim (first (get_fragment r name) (ancestors name)) [
  | some res ↦ res
  | none ↦ get_default r name
]

pub get_lem :
    (r : LoggerRegistry) (name : List ℕ) → length name < 2 ^ 63 → get r name ≡ some (resolve r name)
unfolding get resolve
get_lem r name small =
    rw (for_each-ancestors (get_fragment r name) name small, ◌>>=◌) (ground arith)

pub find-insert_new :
    {V : Type 0} (k : List ℕ) (v : V) (m : List (List ℕ × V))
    → find k m ≡ none
    → find k (insert k v m).0 ≡ some v
unfolding insert find
find-insert_new k v m h = rw (h, insert, same_refl k)

-- What a fragment answers: a logger that is there, or one that a factory makes.
abbrev pub IsAnswer : LoggerRegistry → List ℕ → Answer → Type 0
IsAnswer r name res = (res.1 ≡ r) ⊎ ((f : Factory) × (res ≡ instantiate r name f))

get_fragment-found :
    (r : LoggerRegistry) (name fragment : List ℕ) {l : ℕ}
    → find fragment r.loggers ≡ some l
    → get_fragment r name fragment ≡ some (some l, r)
unfolding get_fragment
get_fragment-found r name fragment hit = rw (hit, get_fragment)

get_fragment-made :
    (r : LoggerRegistry) (name fragment : List ℕ) {f : Factory}
    → find fragment r.loggers ≡ none
    → find fragment r.logger_factories ≡ some f
    → get_fragment r name fragment ≡ some (instantiate r name f)
unfolding get_fragment
get_fragment-made r name fragment miss hit = rw (miss, get_fragment, hit)

get_fragment-none :
    (r : LoggerRegistry) (name fragment : List ℕ)
    → find fragment r.loggers ≡ none
    → find fragment r.logger_factories ≡ none
    → get_fragment r name fragment ≡ none
unfolding get_fragment
get_fragment-none r name fragment miss miss' = rw (miss, get_fragment, miss')

pub get_fragment-IsAnswer :
    (r : LoggerRegistry) (name fragment : List ℕ) (res : Answer)
    → get_fragment r name fragment ≡ some res
    → IsAnswer r name res
get_fragment-IsAnswer r name fragment res h = elim (Option-cases (find fragment r.loggers)) [
  | inl miss ↦ elim (Option-cases (find fragment r.logger_factories)) [
    | inl miss' ↦ absurd (some-ne-none res (sym h ∙ get_fragment-none r name fragment miss miss'))
    | inr (f, hit) ↦
        inr (f, some-injective res _ (sym h ∙ get_fragment-made r name fragment miss hit))
  ]
  | inr (l, hit) ↦ inl (
      ap (λ (a : Answer). a.1)
        (some-injective res _ (sym h ∙ get_fragment-found r name fragment hit)))
]

first-IsAnswer :
    (r : LoggerRegistry) (name : List ℕ) (fs : List (List ℕ)) (res : Answer)
    → first (get_fragment r name) fs ≡ some res
    → IsAnswer r name res
unfolding first
first-IsAnswer r name [] res h = cc
first-IsAnswer r name (f ∷ fs) res h = elim (Option-cases (get_fragment r name f)) [
  | inl miss ↦ first-IsAnswer r name fs res (sym (rw (miss, first)) ∙ h)
  | inr (a, hit) ↦ get_fragment-IsAnswer r name f res (hit ∙ (sym (rw (hit, first)) ∙ h))
]

resolve-IsAnswer : (r : LoggerRegistry) (name : List ℕ) → IsAnswer r name (resolve r name)
unfolding resolve get_default
resolve-IsAnswer r name = elim (Option-cases (first (get_fragment r name) (ancestors name))) [
  | inl miss ↦ elim (Option-cases r.default_logger_factory) [
    | inl null ↦ rw (miss, resolve, null) (inl refl)
    | inr (f, given) ↦ rw (miss, resolve, given) (inr (f, refl))
  ]
  | inr (a, hit) ↦ rw (hit, resolve) (first-IsAnswer r name (ancestors name) a hit)
]

-- A logger that stands under the name itself is what the name gets.
resolve-found :
    (r : LoggerRegistry) (name : List ℕ) {l : ℕ}
    → name ≢ []
    → find name r.loggers ≡ some l
    → resolve r name ≡ (some l, r)
unfolding resolve ancestors first
resolve-found r [] h hit = absurd (h refl)
resolve-found r (c ∷ s) h hit = rw (get_fragment-found r (c ∷ s) (c ∷ s) hit, resolve)

resolve-instantiate :
    (r : LoggerRegistry) (name : List ℕ) (f : Factory)
    → name ≢ []
    → find name r.loggers ≡ none
    → resolve (instantiate r name f).1 name ≡ instantiate r name f
unfolding instantiate
resolve-instantiate r name f h miss =
    resolve-found (instantiate r name f).1 name h
      (find-insert_new name (f name r.world).0 r.loggers miss)

resolve_stable :
    (r : LoggerRegistry) (name : List ℕ)
    → name ≢ []
    → resolve (resolve r name).1 name ≡ resolve r name
resolve_stable r name h = elim (Option-cases (find name r.loggers)) [
  | inr (l, hit) ↦ ap (λ (a : Answer). resolve a.1 name) (resolve-found r name h hit)
  | inl miss ↦ elim (resolve-IsAnswer r name) [
    | inl same_r ↦ ap (λ k. resolve k name) same_r
    | inr (f, e) ↦
        ap (λ (a : Answer). resolve a.1 name) e ∙ resolve-instantiate r name f h miss ∙ sym e
  ]
]

-- `get` answers for every name of less than 2^63 bytes that is not empty, and such a name gets the same
-- logger again: the second call returns the same answer, and leaves the registry as the first has left
-- it.
pub get_stable :
    (r : LoggerRegistry) (name : List ℕ)
    → name ≢ []
    → length name < 2 ^ 63
    → (l : Option ℕ) × (r' : LoggerRegistry) × (get r name ≡ some (l, r'))
      × (get r' name ≡ some (l, r'))
get_stable r name h small = (
  (resolve r name).0,
  (resolve r name).1,
  get_lem r name small,
  get_lem (resolve r name).1 name small ∙ ap some (resolve_stable r name h),
)

-- The registry knows nothing of a name.
abbrev pub IsUnknown : LoggerRegistry → List ℕ → Type 0
IsUnknown r name = (find name r.loggers ≡ none) × (find name r.logger_factories ≡ none)

abbrev pub AllUnknown : LoggerRegistry → List (List ℕ) → Type 0
AllUnknown r [] = Unit {0}
AllUnknown r (f ∷ fs) = IsUnknown r f × AllUnknown r fs

first-skip :
    (r : LoggerRegistry) (name : List ℕ) (pre post : List (List ℕ))
    → AllUnknown r pre
    → first (get_fragment r name) (pre ++ post) ≡ first (get_fragment r name) post
unfolding first
first-skip r name [] post u = refl
first-skip r name (f ∷ pre) post u =
    rw (get_fragment-none r name f u.0.0 u.0.1, first) (first-skip r name pre post u.1)

pub resolve-nearest :
    (r : LoggerRegistry) (name p : List ℕ) (pre post : List (List ℕ)) (f : Factory)
    → ancestors name ≡ pre ++ p ∷ post
    → AllUnknown r pre
    → find p r.loggers ≡ none
    → find p r.logger_factories ≡ some f
    → resolve r name ≡ instantiate r name f
unfolding resolve
resolve-nearest r name p pre post f e u miss hit =
    rw (e, resolve, first-skip r name pre (p ∷ post) u)
      (unfold first in rw (get_fragment-made r name p miss hit, first))

pub find-insert_ne :
    {V : Type 0} (k j : List ℕ) (v : V) (m : List (List ℕ × V))
    → same j k ≡ false
    → find k (insert j v m).0 ≡ find k m
unfolding insert find
find-insert_ne k j v m h = elim (Option-cases (find j m)) [
  | inl miss ↦ rw (miss, insert, h)
  | inr (w, hit) ↦ rw (hit, insert)
]

-- Each of the names is unknown, and is not `p`.
abbrev pub AllOther : LoggerRegistry → List ℕ → List (List ℕ) → Type 0
AllOther r p [] = Unit {0}
AllOther r p (f ∷ fs) = (same p f ≡ false) × IsUnknown r f × AllOther r p fs

register_logger-AllUnknown :
    (r : LoggerRegistry) (p : List ℕ) (logger : ℕ) (pre : List (List ℕ))
    → AllOther r p pre
    → AllUnknown (register_logger r p logger false).0 pre
unfolding register_logger register_logger_func
register_logger-AllUnknown r p logger [] u = tt
register_logger-AllUnknown r p logger (f ∷ pre) (ne, known, u) = (
  (known.0, find-insert_ne f p (λ _ w. (logger, w)) r.logger_factories ne ∙ known.1),
  register_logger-AllUnknown r p logger pre u,
)

-- A name of less than 2^63 bytes gets the logger that is registered under its nearest known parent:
-- if `p` is new, and the parents of the name that are longer than `p` (and the name itself, if it is
-- not `p`) are unknown, then after `registerLogger` of a logger as `p` the name gets that logger.
pub get-register_logger :
    (r : LoggerRegistry) (name p : List ℕ) (logger : ℕ) (pre post : List (List ℕ))
    → length name < 2 ^ 63
    → ancestors name ≡ pre ++ p ∷ post
    → IsUnknown r p
    → AllOther r p pre
    → (r' : LoggerRegistry) × (register_logger r p logger false ≡ (r', true))
      × ((r'' : LoggerRegistry) × (get r' name ≡ some (some logger, r'')))
unfolding register_logger register_logger_func
get-register_logger r name p logger pre post small e u others = (
  (register_logger r p logger false).0,
  ground (arith, u.1),
  (
    (instantiate (register_logger r p logger false).0 name (λ _ w. (logger, w))).1,
    get_lem (register_logger r p logger false).0 name small
        ∙ ap some (
            resolve-nearest (register_logger r p logger false).0 name p pre post
              (λ _ w. (logger, w)) e (register_logger-AllUnknown r p logger pre others) u.0
              (find-insert_new p (λ _ w. (logger, w)) r.logger_factories u.1))
        ∙ (unfold instantiate in refl),
  ),
)
